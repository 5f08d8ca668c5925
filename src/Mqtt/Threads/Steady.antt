-- ===== src/Mqtt/Threads/Steady.antt =====
-- mqtt_exporter.go: what holds under every interleaving of the monitor and the MQTT client.
use go_ecoflow_exporter.Base.{ℕ, Text, true, Option, some, [], ◌∷◌, ◌≡◌, ◌∙◌, inl, inr}
use go_ecoflow_exporter.Base.Dict.{Dict, has}
use go_ecoflow_exporter.Name.{Unicode}
use go_ecoflow_exporter.Update.{Floats, Any}
use go_ecoflow_exporter.Prometheus.{PrometheusExporter}
use go_ecoflow_exporter.Prometheus.Refinement.{Report, IsProper, told-IsProper}
use go_ecoflow_exporter.Protobuf.Message.{Bytes}
use go_ecoflow_exporter.Protobuf.Decoder.{Codec, detect_format, format_string}
use go_ecoflow_exporter.Mqtt.Topic.{get_sn_from_topic}
use go_ecoflow_exporter.Mqtt.Status.{mark_received, init_device_statuses, offline_updates_due}
use go_ecoflow_exporter.Mqtt.Status.Fields.{has-insert, has-init_last_received}
use go_ecoflow_exporter.Mqtt.Status.Invariant.{
  IsSound, received-IsSound, connected-IsSound, updates-IsSound,
}
use go_ecoflow_exporter.Mqtt.Handler.{MqttMetricsExporter, Message, decode_as}
use go_ecoflow_exporter.Mqtt.Handler.Branches.{online_device}
use go_ecoflow_exporter.Mqtt.Connection.{on_connect, on_connection_lost}
use go_ecoflow_exporter.Mqtt.Events.Steps.{Told, with_params_kept, check_connection-Kept}
use go_ecoflow_exporter.Mqtt.Events.Silent.{prom_only, dispatch-prom_only, send_offline-IsProper}
use go_ecoflow_exporter.Mqtt.Events.Invariant.{AreSerials}
use go_ecoflow_exporter.Mqtt.Threads.{
  looked, sending, Threads, begin_message, noted, finish_message, Step, begins, finishes, connects,
  disconnects, looks, marks, sends, ends, Reach, here, later,
}
use go_ecoflow_exporter.Mqtt.Threads.Tracked.{
  AreTracked, AreTracked-grows, offline-IsTracked, due-IsTracked,
}

module _ {F64 F32 : Type 0} (fl : Floats F64 F32) (u : Unicode) (c : Codec F64 F32)
    (unmarshal_params : Bytes → Option (Dict (Any F64 F32))) (prefix : Text) (devices : Dict Text)
    (threshold : ℕ) where
  abbrev pub Program : Type 0
  Program = Threads F64 F32 (PrometheusExporter F64)

  pub record IsSteady (t : Program) : Type 0 where
    pub same_devices : t.exporter.devices ≡ devices
    pub same_handlers : t.exporter.handlers ≡ prom_only fl u prefix
    pub sound : IsSound devices threshold t.exporter.status
    pub proper : IsProper fl u prefix t.exporter.world
    pub tracked : AreTracked t.exporter.status t.round
    pub known :
        (msg : Message) → t.handling ≡ some msg → has (get_sn_from_topic msg.topic) devices ≡ true

  module _ (serials : AreSerials fl u prefix devices threshold) where
    finished-IsProper :
        (now : ℕ) (sn : Text) (m : MqttMetricsExporter F64 F32 (PrometheusExporter F64))
        (w : PrometheusExporter F64)
        → m.handlers ≡ prom_only fl u prefix
        → IsProper fl u prefix m.world
        → has sn devices ≡ true
        → Told now sn m w
        → IsProper fl u prefix w
    finished-IsProper now sn m w handlers ok known (inl same) = rw (same) ok
    finished-IsProper now sn m w handlers ok known (inr (params, e)) =
        let r : Report F64 F32 = record {
          now = now;
          device = online_device sn m;
          params = params;
        } in
        rw (e, handlers, dispatch-prom_only fl u prefix r m.world)
          (told-IsProper fl u prefix r m.world (serials sn known) ok)

    step-IsSteady :
        (t t' : Program) → IsSteady t → Step fl c unmarshal_params threshold t t' → IsSteady t'
    unfolding begin_message finish_message mark_received init_device_statuses on_connect
        on_connection_lost offline_updates_due
    step-IsSteady t t' h (begins now msg free proper configured) =
        let sn = get_sn_from_topic msg.topic in
        let known : has sn devices ≡ true = rw (← h.same_devices) configured in
        record {
          same_devices = h.same_devices;
          same_handlers = h.same_handlers;
          sound = received-IsSound devices threshold now sn t.exporter.status known h.sound;
          proper = h.proper;
          tracked =
              AreTracked-grows t.exporter.status (mark_received now sn t.exporter.status).0 t.round
                (λ j e. has-insert sn j now t.exporter.status.last_received e) h.tracked;
          known = λ other e. let same : msg ≡ other = cc in rw (← same) known;
        }
    step-IsSteady t t' h (finishes now msg busy) =
        let sn = get_sn_from_topic msg.topic in
        let (d, hs, st, w) =
          with_params_kept now sn (format_string (detect_format fl c msg.payload))
            (decode_as fl c unmarshal_params (detect_format fl c msg.payload) sn msg.payload
              t.exporter.protobuf_decoder).0
            (noted fl c unmarshal_params threshold sn msg.payload t.exporter) in
        record {
          same_devices = d ∙ h.same_devices;
          same_handlers = hs ∙ h.same_handlers;
          sound = rw (st) h.sound;
          proper =
              finished-IsProper now sn
                (noted fl c unmarshal_params threshold sn msg.payload t.exporter) _ h.same_handlers
                h.proper (h.known msg busy) w;
          tracked = rw (st) h.tracked;
          known = λ other e. absurd (cc);
        }
    step-IsSteady t t' h (connects subscribe sender clock now) = record {
      same_devices = h.same_devices;
      same_handlers = h.same_handlers;
      sound =
          rw (h.same_devices) (connected-IsSound devices threshold now t.exporter.status h.sound);
      proper = h.proper;
      tracked =
          AreTracked-grows t.exporter.status
            (init_device_statuses now t.exporter.devices t.exporter.status) t.round
            (λ j e.
              has-init_last_received now t.exporter.devices t.exporter.status.last_received j e)
            h.tracked;
      known = h.known;
    }
    step-IsSteady t t' h disconnects = record {
      same_devices = h.same_devices;
      same_handlers = h.same_handlers;
      sound = h.sound;
      proper = h.proper;
      tracked = h.tracked;
      known = h.known;
    }
    step-IsSteady t t' h (looks now free) = record {
      same_devices = h.same_devices;
      same_handlers = h.same_handlers;
      sound = h.sound;
      proper = h.proper;
      tracked = offline-IsTracked now threshold t.exporter.status h.sound;
      known = h.known;
    }
    step-IsSteady t t' h (marks now offline stage) =
        let tracked : AreTracked t.exporter.status (looked offline) =
          rw (AreTracked, stage) at h.tracked in
        record {
          same_devices = h.same_devices;
          same_handlers = h.same_handlers;
          sound = updates-IsSound devices threshold now offline t.exporter.status tracked h.sound;
          proper = h.proper;
          tracked = (tracked, due-IsTracked now threshold t.exporter.status offline tracked);
          known = h.known;
        }
    step-IsSteady t t' h (sends now offline sn due stage) =
        let (all, (first, rest)) : AreTracked t.exporter.status (sending offline (sn ∷ due)) =
          rw (AreTracked, stage) at h.tracked in
        record {
          same_devices = h.same_devices;
          same_handlers = h.same_handlers;
          sound = h.sound;
          proper = rw (h.same_handlers) (
              send_offline-IsProper fl u prefix now t.exporter.devices (sn ∷ []) t.exporter.world
                (serials sn (h.sound.configured sn first), tt) h.proper);
          tracked = (all, rest);
          known = h.known;
        }
    step-IsSteady t t' h (ends now offline stage) =
        let (sent, heard, sound) =
          check_connection-Kept devices threshold now offline t.exporter.status h.sound in
        record {
          same_devices = h.same_devices;
          same_handlers = h.same_handlers;
          sound = rw (h.same_devices) sound;
          proper = h.proper;
          tracked = tt;
          known = h.known;
        }

    pub Reach-IsSteady :
        {t t' : Program} → IsSteady t → Reach fl c unmarshal_params threshold t t' → IsSteady t'
    Reach-IsSteady h here = h
    Reach-IsSteady h (later {t = t1} {t' = t2} r s) = step-IsSteady t1 t2 (Reach-IsSteady h r) s
