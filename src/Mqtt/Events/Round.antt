-- ===== src/Mqtt/Events/Round.antt =====
-- mqtt_exporter.go: the invariant over a round of the monitor, and over every sequence of events.
use go_ecoflow_exporter.Base.{
  ℕ, Text, true, false, ◌&&◌, Option, some, List, [], ◌∷◌, ◌≡◌, refl, ◌∙◌, inl, inr, arith, All, In,
  Bool-cases, if◌then◌else◌,
}
use go_ecoflow_exporter.Base.Dict.{Dict, lookup, has}
use go_ecoflow_exporter.Name.{Unicode}
use go_ecoflow_exporter.Name.Key.{IsSerial}
use go_ecoflow_exporter.Update.{Floats, Any}
use go_ecoflow_exporter.Prometheus.{PrometheusExporter}
use go_ecoflow_exporter.Prometheus.Online.{value_at}
use go_ecoflow_exporter.Protobuf.Message.{Bytes}
use go_ecoflow_exporter.Protobuf.Decoder.{Codec}
use go_ecoflow_exporter.Mqtt.Topic.{get_sn_from_topic}
use go_ecoflow_exporter.Mqtt.Status.{
  is_due, offline_devices, offline_updates_due, init_device_statuses,
}
use go_ecoflow_exporter.Mqtt.Status.Invariant.{connected-IsSound, updates-IsSound}
use go_ecoflow_exporter.Mqtt.Status.Offline.{IsOffline, offline_devices_exact}
use go_ecoflow_exporter.Mqtt.Status.Updates.{contains, contains-due_from, lookup-due_from}
use go_ecoflow_exporter.Mqtt.Handler.{MqttMetricsExporter}
use go_ecoflow_exporter.Mqtt.Monitor.{monitor_round}
use go_ecoflow_exporter.Mqtt.Connection.{on_connect, on_connection_lost}
use go_ecoflow_exporter.Mqtt.Events.{
  Event, received, connected, connection_lost, checked, step, run_events,
}
use go_ecoflow_exporter.Mqtt.Events.Steps.{message_handler_cases, Kept, check_connection-Kept}
use go_ecoflow_exporter.Mqtt.Events.Silent.{silent, send_offline-IsProper, value_at-send_offline}
use go_ecoflow_exporter.Mqtt.Events.Invariant.{
  IsLive, AreSerials, tracked-IsSerial, sent-IsSerial, message_handler-IsLive, contains-In,
  In-contains, All-of_In,
}

module _ {F64 F32 : Type 0} (fl : Floats F64 F32) (u : Unicode) (prefix : Text)
    (devices : Dict Text) (threshold : ℕ) (serials : AreSerials fl u prefix devices threshold)
    (now : ℕ) (m : MqttMetricsExporter F64 F32 (PrometheusExporter F64))
    (live : IsLive fl u prefix devices threshold m) where
  abbrev offline : List Text
  offline = offline_devices now threshold m.status

  abbrev due : List Text
  due = (offline_updates_due now threshold offline m.status).0

  -- The state after the round.
  abbrev pub after : MqttMetricsExporter F64 F32 (PrometheusExporter F64)
  after = (monitor_round true now threshold m).0

  offline_tracked : (sn : Text) → In sn offline → has sn m.status.last_received ≡ true
  offline_tracked sn i =
      let (last, l, late) =
        (offline_devices_exact now threshold m.status live.sound.unique_received sn).0 i in
      ground (arith, l)

  due-contains :
      (sn : Text)
      → contains sn due
        ≡ (contains sn offline && is_due now threshold (lookup sn m.status.offline_sent))
  unfolding offline_updates_due
  due-contains sn = contains-due_from now threshold sn offline m.status.offline_sent

  due-IsSerial : (sn : Text) → contains sn due ≡ true → IsSerial sn
  due-IsSerial sn e =
      let e' : contains sn offline ≡ true = ground (arith, due-contains sn, e) in
      tracked-IsSerial fl u prefix devices threshold serials m sn live
        (offline_tracked sn (In-contains sn offline e'))

  due_serials : All IsSerial due
  due_serials = All-of_In due (λ x i. due-IsSerial x (contains-In x due i))

  kept :
      Kept devices threshold (offline_updates_due now threshold offline m.status).1 (after).status
  unfolding monitor_round
  kept = rw (live.same_devices) (
      check_connection-Kept devices threshold now offline _ (
        updates-IsSound devices threshold now offline m.status (All-of_In offline offline_tracked)
          live.sound))

  sent_after :
      (sn : Text)
      → lookup sn (after).status.offline_sent
        ≡ (if contains sn due then some now else lookup sn m.status.offline_sent)
  unfolding offline_updates_due
  sent_after sn =
      rw (kept.0, due-contains sn) (lookup-due_from now threshold sn offline m.status.offline_sent)

  value_after :
      (sn n : Text)
      → IsSerial sn
      → value_at sn n (after).world
        ≡ (if contains sn due then silent fl u prefix sn n else value_at sn n m.world)
  unfolding monitor_round
  value_after sn n hs =
      rw (live.same_devices, live.same_handlers)
        (value_at-send_offline fl u prefix now devices due m.world sn n due_serials hs live.proper)

  still_cleared :
      (sn n : Text)
      → contains sn due ≡ false
      → has sn m.status.offline_sent ≡ true
      → value_at sn n (after).world ≡ silent fl u prefix sn n
  still_cleared sn n not_due e =
      value_after sn n (sent-IsSerial fl u prefix devices threshold serials m sn live e)
      ∙ rw (not_due) (live.cleared sn n e)

  now_cleared :
      (sn n : Text) → contains sn due ≡ true → value_at sn n (after).world ≡ silent fl u prefix sn n
  now_cleared sn n is_due = value_after sn n (due-IsSerial sn is_due) ∙ rw (is_due) refl

  pub checked-IsLive : IsLive fl u prefix devices threshold after
  checked-IsLive = record {
    same_devices = unfold monitor_round in live.same_devices;
    same_handlers = unfold monitor_round in live.same_handlers;
    sound = kept.2;
    proper =
        unfold monitor_round in
        rw (live.same_devices, live.same_handlers)
          (send_offline-IsProper fl u prefix now devices due m.world due_serials live.proper);
    cleared = λ sn n e. elim (Bool-cases (contains sn due)) [
      | inl is_due ↦ now_cleared sn n is_due
      | inr not_due ↦ still_cleared sn n not_due (ground (arith, sent_after sn, not_due, e))
    ];
  }

  -- A device that a round finds offline is due, or its update was sent before.
  pub offline_cleared :
      (sn n : Text)
      → IsOffline now threshold m.status sn
      → value_at sn n (after).world ≡ silent fl u prefix sn n
  unfolding is_due
  offline_cleared sn n is_offline =
      let found : contains sn offline ≡ true = contains-In sn offline (
        (offline_devices_exact now threshold m.status live.sound.unique_received sn).1
          is_offline) in
      elim (Bool-cases (contains sn due)) [
        | inl is_due ↦ now_cleared sn n is_due
        | inr not_due ↦ still_cleared sn n not_due (ground (arith, due-contains sn, found, not_due))
      ]

module _ {F64 F32 : Type 0} (fl : Floats F64 F32) (u : Unicode) (c : Codec F64 F32)
    (unmarshal_params : Bytes → Option (Dict (Any F64 F32))) (prefix : Text) (devices : Dict Text)
    (threshold : ℕ) (serials : AreSerials fl u prefix devices threshold) where
  abbrev Live : MqttMetricsExporter F64 F32 (PrometheusExporter F64) → Type 0
  Live = IsLive fl u prefix devices threshold

  step-IsLive :
      (e : Event) (m : MqttMetricsExporter F64 F32 (PrometheusExporter F64))
      → Live m
      → Live (step fl c unmarshal_params threshold e m)
  unfolding step on_connect on_connection_lost monitor_round init_device_statuses
  step-IsLive (received now msg) m live =
      elim (message_handler_cases fl c unmarshal_params now msg m) [
        | inl ignored ↦ rw (ignored) live
        | inr (known, handled) ↦
            message_handler-IsLive fl u prefix devices threshold serials now
              (get_sn_from_topic msg.topic) m _ live known handled
      ]
  step-IsLive (connected subscribe sender clock now) m live = record {
    same_devices = live.same_devices;
    same_handlers = live.same_handlers;
    sound = rw (live.same_devices) (connected-IsSound devices threshold now m.status live.sound);
    proper = live.proper;
    cleared = live.cleared;
  }
  step-IsLive connection_lost m live = record {
    same_devices = live.same_devices;
    same_handlers = live.same_handlers;
    sound = live.sound;
    proper = live.proper;
    cleared = live.cleared;
  }
  step-IsLive (checked false now) m live = live
  step-IsLive (checked true now) m live =
      checked-IsLive fl u prefix devices threshold serials now m live

  pub run_events-IsLive :
      (es : List Event) (m : MqttMetricsExporter F64 F32 (PrometheusExporter F64))
      → Live m
      → Live (run_events fl c unmarshal_params threshold es m)
  unfolding run_events
  run_events-IsLive [] m live = live
  run_events-IsLive (e ∷ es) m live = run_events-IsLive es _ (step-IsLive e m live)
