-- ===== src/Rest/Tests.antt =====
-- The theorems on the REST exporter at concrete values.
use go_ecoflow_exporter.Base.{
  ℕ, ◌≤◌, ◌-◌, ◌*◌, max, Text, codes, text_eq, Bool, true, none, some, List, [], ◌∷◌, ◌++◌, ◌≡◌,
  ◌↔◌, refl, arith, if◌then◌else◌,
}
use go_ecoflow_exporter.Base.Int.{ℤ, pos}
use go_ecoflow_exporter.Base.Dict.{Dict}
use go_ecoflow_exporter.Mqtt.Status.{second}
use go_ecoflow_exporter.Update.{
  Any, float64, DeviceUpdate, MetricHandler, returned, compute_samples, to_sample, dispatch,
  safe_handle, new_device_update,
}
use go_ecoflow_exporter.Rest.{
  DeviceInfo, Answer, answered, refused, RestMetricsExporter, scrape, health, fetch_all,
  fetch_device, dispatch_updates,
}
use go_ecoflow_exporter.Name.{basic_latin, generate_metric_name, separator, written}
use go_ecoflow_exporter.Prometheus.{new_prometheus_exporter, online_name}
use go_ecoflow_exporter.Prometheus.Online.{value_at}
use go_ecoflow_exporter.Prometheus.Refinement.{board_after}
use go_ecoflow_exporter.Mqtt.Events.Silent.{prom_only}
use go_ecoflow_exporter.TestData.{test_floats}
use go_ecoflow_exporter.Rest.{Scraped, new_rest_metrics_exporter, run_rest}
use go_ecoflow_exporter.Rest.Exposed.{reports, run_rest-board_after}
use go_ecoflow_exporter.Rest.Scrape.{scrape_refused, health-scrape}
use go_ecoflow_exporter.Base.Int.{wrap, signed}
use go_ecoflow_exporter.Rest.{health_limit}
use go_ecoflow_exporter.Base.{ℕ, Text}

-- A handler that notes the devices it is told of.
abbrev pub note_device : MetricHandler (List Text) (DeviceUpdate ℤ ℤ)
note_device up w = (returned none, up, w ++ up.device.sn ∷ [])

abbrev pub rest_exporter : RestMetricsExporter ℤ ℤ (List Text)
rest_exporter = record {
  interval = 30 * second;
  handlers = note_device ∷ [];
  mapping = [];
  telemetry = none;
  started = second;
  last_success = 0;
  world = [];
}

abbrev pub listed_devices : List DeviceInfo
listed_devices =
    record { sn = codes "R331"; online = pos 1 }
    ∷ record { sn = codes "R601"; online = pos 1 }
    ∷ record { sn = codes "DCA1"; online = pos 0 }
    ∷ []

-- The context does not end.
abbrev pub always : ℕ → Bool
always i = true

-- One device answers.
abbrev pub test_answers : Text → Answer (Dict (Any ℤ ℤ))
test_answers sn =
    if text_eq sn (codes "R331")
    then answered ((codes "pd.soc", float64 (pos 77)) ∷ [])
    else refused (codes "no quota")

noted_devices :
    (scrape always always (5 * second) (answered listed_devices) test_answers rest_exporter).world
    ≡ codes "R331" ∷ codes "DCA1" ∷ []
unfolding scrape fetch_all fetch_device dispatch_updates dispatch safe_handle new_device_update
    text_eq
noted_devices = refl

abbrev two_failures : List (ℕ × Text)
two_failures = (35 * second, codes "down") ∷ (65 * second, codes "down") ∷ []

health-scrape_example :
    let listed =
      scrape always always (5 * second) (answered listed_devices) test_answers rest_exporter in
    (health (200 * second) (scrape_refused always always two_failures test_answers listed) ≡ true)
    ↔ (200 * second - 5 * second ≤ max (3 * (30 * second)) (120 * second))
health-scrape_example =
    health-scrape always always (200 * second) (5 * second) two_failures listed_devices test_answers
      rest_exporter (omega arith) (omega arith)

-- Of a long interval three do not fit, and what is left are the two minutes.
wrapped_limit :
    health_limit (record rest_exporter { interval = 3_100_000_000 * second }) ≡ 120 * second
unfolding health_limit wrap signed
wrapped_limit = refl

-- The list cannot be got, and then it can.
abbrev two_scrapes : List (Scraped ℤ ℤ)
two_scrapes =
    record {
      now = 5 * second;
      devices = refused (codes "down");
      answer = test_answers;
      admitted = always;
      live = always;
    }
    ∷ record {
      now = 35 * second;
      devices = answered listed_devices;
      answer = test_answers;
      admitted = always;
      live = always;
    }
    ∷ []

exposed_soc :
    board_after test_floats basic_latin
      (codes "ecoflow")
      (reports [] two_scrapes)
      (λ s m. none)
      (codes "R331")
      (codes "ecoflow_pd_soc")
    ≡ some (pos 77)
unfolding text_eq online_name generate_metric_name separator written compute_samples to_sample
exposed_soc = refl

run_rest-board_after_example :
    value_at
      (codes "R331")
      (codes "ecoflow_pd_soc")
      (run_rest second two_scrapes (
        new_rest_metrics_exporter
          (30 * second)
          []
          (prom_only test_floats basic_latin (codes "ecoflow"))
          none
          (new_prometheus_exporter ℤ (codes "ecoflow")))).world
    ≡ board_after test_floats basic_latin
        (codes "ecoflow")
        (reports [] two_scrapes)
        (λ s m. none)
        (codes "R331")
        (codes "ecoflow_pd_soc")
unfolding text_eq
run_rest-board_after_example =
    run_rest-board_after test_floats basic_latin (codes "ecoflow") [] (30 * second) second none
      two_scrapes (codes "R331") (codes "ecoflow_pd_soc") (omega arith, (omega arith, tt))
      (omega arith)
