-- ===== src/Mqtt/Threads/Sequential.antt =====
-- mqtt_exporter.go: the runs in which no message comes in between the steps of a round of the monitor.
use go_ecoflow_exporter.Base.{
  ℕ, Text, true, false, Option, none, List, [], ◌∷◌, refl, ap, ◌∙◌, inl, inr, Bool-cases,
}
use go_ecoflow_exporter.Base.Dict.{Dict, has}
use go_ecoflow_exporter.Update.{Floats, Any}
use go_ecoflow_exporter.Protobuf.Message.{Bytes}
use go_ecoflow_exporter.Protobuf.Decoder.{Codec}
use go_ecoflow_exporter.Mqtt.Topic.{get_sn_from_topic}
use go_ecoflow_exporter.Mqtt.Status.{Status, offline_devices, offline_updates_due}
use go_ecoflow_exporter.Mqtt.Handler.{MqttMetricsExporter, Message, message_handler}
use go_ecoflow_exporter.Mqtt.Handler.Branches.{configured_case}
use go_ecoflow_exporter.Mqtt.Monitor.{send_offline, monitor_round}
use go_ecoflow_exporter.Mqtt.Events.{
  Event, received, connected, connection_lost, checked, step, run_events,
}
use go_ecoflow_exporter.Mqtt.Events.Steps.{nonempty, ignored_case}
use go_ecoflow_exporter.Mqtt.Threads.{
  idle, sending, Threads, parts_of_handle_message, begins, finishes, connects, disconnects, looks,
  marks, sends, ends, Reach, here, later,
}

module _ {F64 F32 W : Type 0} where
  -- No round is under way, and no message is being handled.
  abbrev pub rested : MqttMetricsExporter F64 F32 W → Threads F64 F32 W
  rested m = record { exporter = m; round = idle; handling = none }

  abbrev in_loop :
      List Text → List Text → Status → W → MqttMetricsExporter F64 F32 W → Threads F64 F32 W
  in_loop offline due st w m = record {
    exporter = record m { status = st; world = w };
    round = sending offline due;
    handling = none;
  }

module _ {F64 F32 W : Type 0} (fl : Floats F64 F32) (c : Codec F64 F32)
    (unmarshal_params : Bytes → Option (Dict (Any F64 F32))) (threshold : ℕ) where
  module _ (start : Threads F64 F32 W) where
    abbrev Reached : Threads F64 F32 W → Type 0
    Reached = Reach fl c unmarshal_params threshold start

    loop-Reached :
        (now : ℕ) (offline due : List Text) (st : Status) (w : W)
        (m : MqttMetricsExporter F64 F32 W)
        → Reached (in_loop offline due st w m)
        → Reached (in_loop offline [] st (send_offline now m.devices m.handlers due w) m)
    unfolding send_offline
    loop-Reached now offline [] st w m r = r
    loop-Reached now offline (sn ∷ due) st w m r =
        loop-Reached now offline due st (send_offline now m.devices m.handlers (sn ∷ []) w) m
          (later r (sends now offline sn due refl))

    round-Reached :
        (now : ℕ) (m : MqttMetricsExporter F64 F32 W)
        → Reached (rested m)
        → Reached (rested (monitor_round true now threshold m).0)
    unfolding monitor_round
    round-Reached now m r =
        let offline = offline_devices now threshold m.status in
        let (due, st) = offline_updates_due now threshold offline m.status in
        later
          (loop-Reached now offline due st m.world m
            (later (later r (looks now refl)) (marks now offline refl)))
          (ends now offline refl)

    message-Reached :
        (now : ℕ) (msg : Message) (m : MqttMetricsExporter F64 F32 W)
        → Reached (rested m)
        → Reached (rested (message_handler fl c unmarshal_params now msg m).0)
    unfolding message_handler
    message-Reached now msg m r =
        let sn = get_sn_from_topic msg.topic in
        elim (nonempty sn) [
          | inl e ↦ rw (ignored_case fl c unmarshal_params now sn msg.payload m (inr e)) r
          | inr proper ↦ elim (Bool-cases (has sn m.devices)) [
            | inl known ↦
                let whole =
                  ap (λ p. p.0)
                    (configured_case fl c unmarshal_params now sn msg.payload m proper known)
                  ∙ parts_of_handle_message fl c unmarshal_params threshold now sn msg.payload m in
                rw (whole)
                  (later (later r (begins now msg refl proper known)) (finishes now msg refl))
            | inr unknown ↦
                rw (ignored_case fl c unmarshal_params now sn msg.payload m (inl unknown)) r
          ]
        ]

    step-Reached :
        (e : Event) (m : MqttMetricsExporter F64 F32 W)
        → Reached (rested m)
        → Reached (rested (step fl c unmarshal_params threshold e m))
    unfolding step monitor_round
    step-Reached (received now msg) m r = message-Reached now msg m r
    step-Reached (connected subscribe sender clock now) m r =
        later r (connects subscribe sender clock now)
    step-Reached connection_lost m r = later r disconnects
    step-Reached (checked false now) m r = r
    step-Reached (checked true now) m r = round-Reached now m r

    events-Reached :
        (es : List Event) (m : MqttMetricsExporter F64 F32 W)
        → Reached (rested m)
        → Reached (rested (run_events fl c unmarshal_params threshold es m))
    unfolding run_events
    events-Reached [] m r = r
    events-Reached (e ∷ es) m r =
        events-Reached es (step fl c unmarshal_params threshold e m) (step-Reached e m r)

  -- Messages, connections and rounds of the monitor that come one after the other, each as a whole, are one of the
  -- interleavings of their steps: what holds under every interleaving holds of them.
  pub run_events-Reach :
      (es : List Event) (m : MqttMetricsExporter F64 F32 W)
      → Reach fl c unmarshal_params threshold
          (rested m)
          (rested (run_events fl c unmarshal_params threshold es m))
  run_events-Reach es m = events-Reached (rested m) es m here
