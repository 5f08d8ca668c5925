-- ===== src/Mqtt/Events/Exposed.antt =====
-- mqtt_exporter.go and prometheus.go together: what the exporter exposes after any sequence of events.
use go_ecoflow_exporter.Base.{
  ℕ, Text, text_eq, Bool, true, Option, none, some, List, ◌≡◌, refl, if◌then◌else◌,
}
use go_ecoflow_exporter.Base.Int.{pos}
use go_ecoflow_exporter.Base.Dict.{Dict, lookup}
use go_ecoflow_exporter.Name.{Unicode}
use go_ecoflow_exporter.Telemetry.{Telemetry}
use go_ecoflow_exporter.Update.{Floats, Any}
use go_ecoflow_exporter.Prometheus.{PrometheusExporter, new_prometheus_exporter, online_name}
use go_ecoflow_exporter.Prometheus.Online.{value_at}
use go_ecoflow_exporter.Prometheus.Refinement.{new_prometheus_exporter-IsProper}
use go_ecoflow_exporter.Protobuf.Message.{Bytes}
use go_ecoflow_exporter.Protobuf.Decoder.{Codec}
use go_ecoflow_exporter.Mqtt.Status.Invariant.{initial-IsSound}
use go_ecoflow_exporter.Mqtt.Status.Offline.{IsOffline}
use go_ecoflow_exporter.Mqtt.Handler.{MqttMetricsExporter}
use go_ecoflow_exporter.Mqtt.Events.{Event, checked, new_mqtt_metrics_exporter, step, run_events}
use go_ecoflow_exporter.Mqtt.Events.Silent.{prom_only}
use go_ecoflow_exporter.Mqtt.Events.Invariant.{IsLive, AreSerials}
use go_ecoflow_exporter.Mqtt.Events.Round.{run_events-IsLive, offline_cleared}

module _ {F64 F32 : Type 0} (fl : Floats F64 F32) (u : Unicode) (c : Codec F64 F32)
    (unmarshal_params : Bytes → Option (Dict (Any F64 F32))) (prefix : Text) (devices : Dict Text)
    (threshold : ℕ) (debug : Bool) (telemetry : Option Telemetry) where
  -- The exporter that main.go makes, before the first event.
  abbrev fresh : MqttMetricsExporter F64 F32 (PrometheusExporter F64)
  fresh =
      new_mqtt_metrics_exporter devices (prom_only fl u prefix) debug telemetry
        (new_prometheus_exporter F64 prefix)

  -- The exporter after the events, oldest first.
  abbrev pub exporter_after : List Event → MqttMetricsExporter F64 F32 (PrometheusExporter F64)
  exporter_after es = run_events fl c unmarshal_params threshold es fresh

  module _ (serials : AreSerials fl u prefix devices threshold) where
    fresh-IsLive : IsLive fl u prefix devices threshold fresh
    unfolding new_mqtt_metrics_exporter lookup
    fresh-IsLive = record {
      same_devices = refl;
      same_handlers = refl;
      sound = initial-IsSound devices threshold;
      proper = new_prometheus_exporter-IsProper fl u prefix;
      cleared = λ sn n e. absurd (cc);
    }

    after-IsLive : (es : List Event) → IsLive fl u prefix devices threshold (exporter_after es)
    after-IsLive es =
        run_events-IsLive fl u c unmarshal_params prefix devices threshold serials es fresh
          fresh-IsLive

    -- After any events, a round of the monitor on a connected client leaves every device that is offline then with
    -- the one series `online`, at 0: whether the round sent its update or one before did, no other value of the
    -- device is exposed. Assumed: no configured serial number has an underscore.
    pub step-silent :
        (es : List Event) (now : ℕ) (sn n : Text)
        → IsOffline now threshold (exporter_after es).status sn
        → value_at sn n
            (step fl c unmarshal_params threshold (checked true now) (exporter_after es)).world
          ≡ (if text_eq (online_name u prefix sn) n then some (fl.of_int (pos 0)) else none)
    unfolding step
    step-silent es now sn n h =
        offline_cleared fl u prefix devices threshold serials now (exporter_after es)
          (after-IsLive es) sn n h
