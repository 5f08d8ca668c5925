-- ===== src/Start/Creation.antt =====
-- main.go and config.go together: that the loaded configuration gives an exporter.
use go_ecoflow_exporter.Base.{
  Text, true, Option, List, ◌∷◌, length, ◌≡◌, ◌⊎◌, inl, inr, refl, arith, Bool-cases,
}
use go_ecoflow_exporter.Name.{metric_prefix_pattern}
use go_ecoflow_exporter.Telemetry.{Telemetry}
use go_ecoflow_exporter.Update.{DeviceUpdate, MetricHandler}
use go_ecoflow_exporter.Rest.{new_rest_metrics_exporter}
use go_ecoflow_exporter.Mqtt.Events.{new_mqtt_metrics_exporter}
use go_ecoflow_exporter.Config.{Library}
use go_ecoflow_exporter.Config.Load.{Config, loaded, load_config, is_rest, is_mqtt}
use go_ecoflow_exporter.Config.Valid.{NumbersAreSmall, load_config_accepted, load_config_valid}
use go_ecoflow_exporter.Start.{mqtt_created, rest_created, create_exporter, nanoseconds}

-- A configuration that loads always gives an exporter, of the configured type and with the configured devices, and has
-- a metric prefix that matches the pattern. Assumed: no variable holds a number of seconds above 9223372036, the most
-- that an int64 of nanoseconds can hold.
pub create_exporter-load_config :
    {F64 F32 W : Type 0} (lib : Library) (env : Text → Option Text) (cfg : Config)
    (telemetry : Option Telemetry) (h : MetricHandler W (DeviceUpdate F64 F32))
    (hs : List (MetricHandler W (DeviceUpdate F64 F32))) (world : W)
    → NumbersAreSmall lib env
    → load_config lib env ≡ loaded cfg
    → (metric_prefix_pattern cfg.metric_prefix ≡ true)
      × (((is_mqtt cfg.exporter_type ≡ true)
            × (create_exporter cfg telemetry (h ∷ hs) world
                ≡ mqtt_created (
                    new_mqtt_metrics_exporter cfg.devices
                      (h ∷ hs)
                      cfg.protobuf_debug
                      telemetry
                      world)))
          ⊎ ((is_rest cfg.exporter_type ≡ true)
              × (create_exporter cfg telemetry (h ∷ hs) world
                  ≡ rest_created (
                      new_rest_metrics_exporter
                        (nanoseconds cfg.rest.interval)
                        cfg.devices
                        (h ∷ hs)
                        telemetry
                        world))))
unfolding create_exporter
create_exporter-load_config lib env cfg telemetry h hs world small e =
    let (prefix, known) = load_config_valid lib env cfg e in
    (
      prefix,
      elim (Bool-cases (is_mqtt cfg.exporter_type)) [
        | inl mqtt ↦
            let accepted =
              load_config_accepted lib env cfg (length (h ∷ hs)) small (omega arith) e mqtt in
            inl (mqtt, rw (mqtt, accepted) refl)
        | inr other ↦ inr (ground arith, rw (other) refl)
      ],
    )
