-- ===== src/Start/Tests.antt =====
-- The theorems on the start at concrete values.
use go_ecoflow_exporter.Base.{
  ℕ, ◌*◌, max, Text, codes, Bool, true, false, Option, none, some, List, [], ◌∷◌, ◌≡◌, ◌⊎◌, ◌↔◌,
  arith,
}
use go_ecoflow_exporter.Name.{metric_prefix_pattern}
use go_ecoflow_exporter.Update.{returned, DeviceUpdate, MetricHandler}
use go_ecoflow_exporter.Base.Int.{ℤ}
use go_ecoflow_exporter.Rest.{RestMetricsExporter, new_rest_metrics_exporter}
use go_ecoflow_exporter.Mqtt.Status.{second}
use go_ecoflow_exporter.Mqtt.Events.{new_mqtt_metrics_exporter}
use go_ecoflow_exporter.Config.Load.{is_rest, is_mqtt}
use go_ecoflow_exporter.Config.Sample.{
  test_library, test_env, test_config, test_config_loads, test_numbers_small,
}
use go_ecoflow_exporter.Watchdog.{watchdog, has_long_failure}
use go_ecoflow_exporter.Start.{
  mqtt_created, rest_created, create_exporter, nanoseconds, run_result, exit_code,
  unhealthy_exit_after,
}
use go_ecoflow_exporter.Start.Creation.{create_exporter-load_config}
use go_ecoflow_exporter.Start.Exit.{cause_of, exit_code-watchdog}
use go_ecoflow_exporter.Start.Outage.{IsLong, last_heard, health_checks, exit_code-health}
use go_ecoflow_exporter.Start.Run.{
  running, created_for, checked_server, start_run, start_run-load_config,
}
use go_ecoflow_exporter.Base.{refl}
use go_ecoflow_exporter.Name.{basic_latin}
use go_ecoflow_exporter.TestData.{test_floats}

abbrev ignore : MetricHandler ℕ (DeviceUpdate ℤ ℤ)
ignore up w = (returned none, up, w)

create_exporter-load_config_example :
    (metric_prefix_pattern test_config.metric_prefix ≡ true)
    × (((is_mqtt test_config.exporter_type ≡ true)
          × (create_exporter test_config none (ignore ∷ []) 0
              ≡ mqtt_created (
                  new_mqtt_metrics_exporter test_config.devices
                    (ignore ∷ [])
                    test_config.protobuf_debug
                    none
                    0)))
        ⊎ ((is_rest test_config.exporter_type ≡ true)
            × (create_exporter test_config none (ignore ∷ []) 0
                ≡ rest_created (
                    new_rest_metrics_exporter
                      (nanoseconds test_config.rest.interval)
                      test_config.devices
                      (ignore ∷ [])
                      none
                      0))))
create_exporter-load_config_example =
    create_exporter-load_config test_library test_env test_config none ignore [] 0
      test_numbers_small test_config_loads

-- The check fails at minute 1 and still at minute 32.
abbrev failing_ticks : List (ℕ × Option Text)
failing_ticks = (60 * second, some (codes "down")) ∷ (1920 * second, some (codes "down")) ∷ []

exit_code-watchdog_example :
    (exit_code (run_result false (cause_of (watchdog unhealthy_exit_after 0 failing_ticks)) none)
      ≡ 1)
    ↔ ((◌≡◌ {A = Bool} false false) × (has_long_failure unhealthy_exit_after failing_ticks ≡ true))
exit_code-watchdog_example = exit_code-watchdog false failing_ticks (omega arith, (omega arith, tt))

-- A registry and a network without objections, and an exporter that is always healthy.
abbrev no_error : Text → Option Text
no_error t = none

start_run-load_config_example :
    start_run test_floats basic_latin
      (codes "dev")
      no_error
      no_error
      (λ e (s : ℕ). none)
      test_library
      test_env
    ≡ running test_config
        (created_for test_floats basic_latin
          (codes "dev")
          no_error
          no_error
          (λ e (s : ℕ). none)
          test_config)
        (checked_server test_floats basic_latin
          (codes "dev")
          no_error
          no_error
          (λ e (s : ℕ). none)
          (created_for test_floats basic_latin
            (codes "dev")
            no_error
            no_error
            (λ e (s : ℕ). none)
            test_config))
start_run-load_config_example =
    start_run-load_config test_floats basic_latin (codes "dev") no_error no_error
      (λ e (s : ℕ). none) test_library test_env test_config test_numbers_small test_config_loads
      refl refl

-- The device list was got last after five seconds.
abbrev cut_off : RestMetricsExporter ℤ ℤ ℕ
cut_off = record {
  interval = 30 * second;
  handlers = [];
  mapping = [];
  telemetry = none;
  started = second;
  last_success = 5 * second;
  world = 0;
}

abbrev outage_times : List ℕ
outage_times = 60 * second ∷ 130 * second ∷ 1000 * second ∷ 1931 * second ∷ []

exit_code-health_example :
    (exit_code (
        run_result false
          (cause_of (
            watchdog unhealthy_exit_after 0
              (health_checks cut_off (codes "no API call") outage_times)))
          none)
      ≡ 1)
    ↔ ((◌≡◌ {A = Bool} false false)
        × IsLong unhealthy_exit_after
            (max (3 * (30 * second)) (120 * second))
            (last_heard cut_off)
            outage_times)
exit_code-health_example =
    exit_code-health cut_off false (codes "no API call") outage_times
      (omega arith, (omega arith, (omega arith, (omega arith, tt)))) (omega arith)
