-- ===== src/Mqtt/Events/Tests.antt =====
-- The theorems on sequences of events at concrete events.
use go_ecoflow_exporter.Base.{
  ◌*◌, Text, codes, text_eq, text_eq_iff, true, false, none, some, List, [], ◌∷◌, ◌≡◌, refl, arith,
  if◌then◌else◌,
}
use go_ecoflow_exporter.Base.Int.{pos}
use go_ecoflow_exporter.Base.Dict.{Dict, lookup, insert}
use go_ecoflow_exporter.Name.{basic_latin}
use go_ecoflow_exporter.Update.{compute_samples}
use go_ecoflow_exporter.Prometheus.{online_name}
use go_ecoflow_exporter.Prometheus.Online.{value_at}
use go_ecoflow_exporter.Protobuf.Decoder.{detect_format, first_is, last_is, copy_into}
use go_ecoflow_exporter.Mqtt.Topic.{split, last_part, get_sn_from_topic}
use go_ecoflow_exporter.Mqtt.Status.{second, mark_received}
use go_ecoflow_exporter.Mqtt.Status.Offline.{IsOffline}
use go_ecoflow_exporter.Mqtt.Handler.{
  message_handler, handle_message, with_params, decode_as, publish, dispatch_state,
}
use go_ecoflow_exporter.Mqtt.Events.{
  Event, received, checked, new_mqtt_metrics_exporter, step, run_events,
}
use go_ecoflow_exporter.Mqtt.Events.Invariant.{AreSerials}
use go_ecoflow_exporter.Mqtt.Events.Exposed.{exporter_after, step-silent}
use go_ecoflow_exporter.Base.{Option}
use go_ecoflow_exporter.Base.Int.{ℤ}
use go_ecoflow_exporter.Base.Dict.{erase, delete_where}
use go_ecoflow_exporter.Name.{generate_metric_name, separator, written}
use go_ecoflow_exporter.Update.{
  dispatch, safe_handle, samples_of, to_sample, to_float, new_device_update, get_device_name,
}
use go_ecoflow_exporter.Prometheus.{
  PrometheusExporter, handle, store, set_locked, set_samples, described, new_prometheus_exporter,
}
use go_ecoflow_exporter.Mqtt.Status.{offline_devices, late, offline_updates_due, due_from, is_due}
use go_ecoflow_exporter.Mqtt.Handler.{MqttMetricsExporter}
use go_ecoflow_exporter.Mqtt.Monitor.{send_offline}
use go_ecoflow_exporter.TestData.{test_floats, json_codec, json_params, json_message, delta_sn}

abbrev one_device : Dict Text
one_device = (delta_sn, codes "Delta 2") ∷ []

abbrev one_message : List Event
one_message = received (100 * second) json_message ∷ []

one_device-AreSerials :
    AreSerials test_floats basic_latin (codes "ecoflow") one_device (300 * second)
unfolding lookup
one_device-AreSerials sn e =
    let same : sn ≡ delta_sn = ground (arith, text_eq_iff delta_sn sn) in rw (same) (omega arith)

silent_since :
    IsOffline
      (500 * second)
      (300 * second)
      (exporter_after test_floats basic_latin json_codec json_params
        (codes "ecoflow")
        one_device
        (300 * second)
        false
        none
        one_message).status
      delta_sn
unfolding run_events step message_handler handle_message with_params publish dispatch_state
    mark_received insert lookup text_eq get_sn_from_topic last_part split decode_as detect_format
    first_is last_is new_mqtt_metrics_exporter copy_into
silent_since = (100 * second, refl, omega arith)

step-silent_example :
    value_at delta_sn
      (codes "ecoflow_pd_soc")
      (step test_floats json_codec json_params (300 * second) (checked true (500 * second)) (
        exporter_after test_floats basic_latin json_codec json_params
          (codes "ecoflow")
          one_device
          (300 * second)
          false
          none
          one_message)).world
    ≡ (if text_eq (online_name basic_latin (codes "ecoflow") delta_sn) (codes "ecoflow_pd_soc")
        then some (pos 0)
        else none)
step-silent_example =
    step-silent test_floats basic_latin json_codec json_params (codes "ecoflow") one_device
      (300 * second) false none one_device-AreSerials one_message (500 * second) delta_sn
      (codes "ecoflow_pd_soc") silent_since

-- A round that is not one step: a message comes between the look at the devices and the offline updates. The device is
-- then reported offline, and nothing but `online` is exposed of it, though it was heard of just then.
abbrev silent_then_heard : MqttMetricsExporter ℤ ℤ (PrometheusExporter ℤ)
silent_then_heard =
    step test_floats json_codec json_params (300 * second) (received (500 * second) json_message) (
      exporter_after test_floats basic_latin json_codec json_params (codes "ecoflow") one_device
        (300 * second) false none one_message)

abbrev exposed_soc : PrometheusExporter ℤ → Option ℤ
exposed_soc = value_at delta_sn (codes "ecoflow_pd_soc")

late_update :
    let m = silent_then_heard in
    let before =
      exporter_after test_floats basic_latin json_codec json_params
        (codes "ecoflow")
        one_device
        (300 * second)
        false
        none
        one_message in
    let offline = offline_devices (500 * second) (300 * second) before.status in
    let due = (offline_updates_due (500 * second) (300 * second) offline m.status).0 in
    (offline_devices (500 * second) (300 * second) m.status ≡ [])
    × (exposed_soc m.world ≡ some (pos 77))
    × (exposed_soc (send_offline (500 * second) one_device m.handlers due m.world) ≡ none)
unfolding run_events step message_handler handle_message with_params publish dispatch_state
    mark_received insert lookup text_eq get_sn_from_topic last_part split decode_as detect_format
    first_is last_is new_mqtt_metrics_exporter copy_into offline_devices late offline_updates_due
    due_from is_due send_offline dispatch safe_handle handle store set_locked set_samples samples_of
    compute_samples to_sample to_float generate_metric_name separator written online_name described
    delete_where value_at new_device_update new_prometheus_exporter get_device_name erase
late_update = (refl, refl, refl)
