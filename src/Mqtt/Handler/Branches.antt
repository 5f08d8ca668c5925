-- ===== src/Mqtt/Handler/Branches.antt =====
-- mqtt_exporter.go: what one message does, on each way through `MessageHandler`.
use go_ecoflow_exporter.Base.{
  ℕ, Text, text_eq, true, false, Option, some, [], ◌∷◌, ◌≡◌, ◌≢◌, refl, sym, ap, ◌∙◌, if◌then◌else◌,
}
use go_ecoflow_exporter.Base.Int.{pos}
use go_ecoflow_exporter.Base.Dict.{Dict, insert, has, lookup-insert_self}
use go_ecoflow_exporter.Telemetry.{mqtt_message}
use go_ecoflow_exporter.Update.{
  Floats, EcoflowDevice, Any, get_device_name, new_device_update, dispatch,
}
use go_ecoflow_exporter.Protobuf.Message.{Bytes}
use go_ecoflow_exporter.Protobuf.Decoder.{
  format_string, Codec, detect_format, new_protobuf_decoder, copy_into,
}
use go_ecoflow_exporter.Mqtt.Status.{mark_received}
use go_ecoflow_exporter.Mqtt.Topic.{get_sn_from_topic}
use go_ecoflow_exporter.Mqtt.Handler.{
  MqttMetricsExporter, Message, state_of, decode_as, dispatch_state, publish, with_params,
  handle_message, for_sn, message_handler,
}
use go_ecoflow_exporter.Mqtt.Handler.State.{params_in, decode_as_params}

module _ {V : Type 0} where
  insert_nonempty : (k : Text) (v : V) (m : Dict V) → insert k v m ≢ []
  unfolding insert
  insert_nonempty k v [] = λ e. absurd (cc)
  insert_nonempty k v ((j, w) ∷ m) =
      elim (text_eq j k) as (λ b. (if b then (k, v) ∷ m else (j, w) ∷ insert k v m) ≢ []) [
        | true ↦ λ e. absurd (cc)
        | false ↦ λ e. absurd (cc)
      ]

  copy_into_nonempty : (into from : Dict V) → into ≢ [] → copy_into into from ≢ []
  unfolding copy_into
  copy_into_nonempty into [] h = h
  copy_into_nonempty into ((k, v) ∷ from) h =
      copy_into_nonempty (insert k v into) from (insert_nonempty k v into)

  copied_nonempty :
      (into : Dict V) (k : Text) (v : V) (from : Dict V) → copy_into into ((k, v) ∷ from) ≢ []
  unfolding copy_into
  copied_nonempty into k v from =
      copy_into_nonempty (insert k v into) from (insert_nonempty k v into)

module _ {F64 F32 W : Type 0} where
  -- What the handlers are told of a device that sent data.
  abbrev pub online_device : Text → MqttMetricsExporter F64 F32 W → EcoflowDevice
  online_device sn m = record { sn = sn; name = get_device_name m.devices sn; online = pos 1 }

  dispatch_state_world :
      (now : ℕ) (sn : Text) (full_state : Dict (Any F64 F32)) (m : MqttMetricsExporter F64 F32 W)
      → full_state ≢ []
      → (dispatch_state now sn full_state m).world
        ≡ (dispatch m.handlers (new_device_update now (online_device sn m) full_state) m.world).2
  unfolding dispatch_state
  dispatch_state_world now sn [] m h = absurd (h refl)
  dispatch_state_world now sn (entry ∷ full_state) m h = refl

  pub dispatch_state_state :
      (now : ℕ) (sn : Text) (full_state : Dict (Any F64 F32)) (m : MqttMetricsExporter F64 F32 W)
      → (dispatch_state now sn full_state m).device_state ≡ m.device_state
  unfolding dispatch_state
  dispatch_state_state now sn [] m = refl
  dispatch_state_state now sn (entry ∷ full_state) m = refl

  pub publish_world :
      (now : ℕ) (sn : Text) (k : Text) (v : Any F64 F32) (params : Dict (Any F64 F32))
      (m : MqttMetricsExporter F64 F32 W)
      → let m' = publish now sn ((k, v) ∷ params) m in
        m'.world
        ≡ (dispatch m.handlers
            (new_device_update now (online_device sn m) (state_of sn m'.device_state))
            m.world).2
  unfolding publish
  publish_world now sn k v params m =
      let full_state = copy_into (state_of sn m.device_state) ((k, v) ∷ params) in
      let m1 = record m { device_state = insert sn full_state m.device_state } in
      let cached : state_of sn (dispatch_state now sn full_state m1).device_state ≡ full_state =
        rw
          (
            dispatch_state_state now sn full_state m1,
            state_of,
            lookup-insert_self sn full_state m.device_state,
          )
          refl in
      dispatch_state_world now sn full_state m1
        (copied_nonempty (state_of sn m.device_state) k v params)
      ∙ ap (λ f. (dispatch m.handlers (new_device_update now (online_device sn m) f) m.world).2)
          (sym cached)

module _ {F64 F32 W : Type 0} (fl : Floats F64 F32) (c : Codec F64 F32)
    (unmarshal_params : Bytes → Option (Dict (Any F64 F32))) where
  pub configured_case :
      (now : ℕ) (sn : Text) (payload : Bytes) (m : MqttMetricsExporter F64 F32 W)
      → sn ≢ []
      → has sn m.devices ≡ true
      → for_sn fl c unmarshal_params now sn payload m
        ≡ handle_message fl c unmarshal_params now sn payload m
  configured_case now [] payload m proper configured = absurd (proper refl)
  configured_case now (char ∷ chars) payload m proper configured = rw (configured) refl

  -- The state in which the switch on the format leaves its function.
  abbrev pub received : ℕ → Message → MqttMetricsExporter F64 F32 W → MqttMetricsExporter F64 F32 W
  received now msg m =
      let sn = get_sn_from_topic msg.topic in
      let format = detect_format fl c msg.payload in
      record m {
        status = (mark_received now sn m.status).0;
        protobuf_decoder =
            (decode_as fl c unmarshal_params format sn msg.payload m.protobuf_decoder).1;
        telemetry = mqtt_message sn (format_string format) m.telemetry;
      }

  pub entered :
      (now : ℕ) (msg : Message) (params : Option (Dict (Any F64 F32)))
      (m : MqttMetricsExporter F64 F32 W)
      → get_sn_from_topic msg.topic ≢ []
      → has (get_sn_from_topic msg.topic) m.devices ≡ true
      → params_in fl c unmarshal_params msg.payload ≡ params
      → (message_handler fl c unmarshal_params now msg m).0
        ≡ with_params now
            (get_sn_from_topic msg.topic)
            (format_string (detect_format fl c msg.payload))
            params
            (received now msg m)
  unfolding message_handler handle_message
  entered now msg params m proper configured e =
      let sn = get_sn_from_topic msg.topic in
      let format = detect_format fl c msg.payload in
      let same =
        decode_as_params fl c unmarshal_params format sn [] msg.payload m.protobuf_decoder
          (new_protobuf_decoder false)
        ∙ e in
      ap (λ r. r.0) (configured_case now sn msg.payload m proper configured)
      ∙ ap (λ ps. with_params now sn (format_string format) ps (received now msg m)) same

  -- A message of a configured device that holds parameters calls the handlers, in order, with an update that has
  -- the device online and for its parameters the full state that is then cached, not only those of the message.
  pub message_handler_full_state :
      (now : ℕ) (msg : Message) (k : Text) (v : Any F64 F32) (params : Dict (Any F64 F32))
      (m : MqttMetricsExporter F64 F32 W)
      → get_sn_from_topic msg.topic ≢ []
      → has (get_sn_from_topic msg.topic) m.devices ≡ true
      → params_in fl c unmarshal_params msg.payload ≡ some ((k, v) ∷ params)
      → let sn = get_sn_from_topic msg.topic in
        let m' = (message_handler fl c unmarshal_params now msg m).0 in
        m'.world
        ≡ (dispatch m.handlers
            (new_device_update now (online_device sn m) (state_of sn m'.device_state))
            m.world).2
  unfolding with_params
  message_handler_full_state now msg k v params m proper configured e =
      let sn = get_sn_from_topic msg.topic in
      let whole = entered now msg (some ((k, v) ∷ params)) m proper configured e in
      ap (λ m'. m'.world) whole
      ∙ publish_world now sn k v params (received now msg m)
      ∙ ap
          (λ m'.
            (dispatch m.handlers
              (new_device_update now (online_device sn m) (state_of sn m'.device_state)) m.world).2)
          (sym whole)
