-- ===== src/Mqtt/Handler/Latest.antt =====
-- mqtt_exporter.go: the cached states after a sequence of messages.
use go_ecoflow_exporter.Base.{
  ℕ, Text, text_eq, text_eq_no, true, false, Option, none, some, List, [], ◌∷◌, ◌≡◌, ◌≢◌, refl, sym,
  ap, ◌∙◌, inl, inr, Bool-cases, if◌then◌else◌,
}
use go_ecoflow_exporter.Base.Dict.{Dict, lookup, has, IsUnique}
use go_ecoflow_exporter.Telemetry.{mqtt_message}
use go_ecoflow_exporter.Update.{Floats, Any}
use go_ecoflow_exporter.Protobuf.Message.{Bytes}
use go_ecoflow_exporter.Protobuf.Decoder.{
  MessageFormat, format_unknown, format_json, format_protobuf, format_string, Codec, detect_format,
  ProtobufDecoder, new_protobuf_decoder, decode_protobuf_message, DecodeResult, decode_ok,
  decode_err, log_first_protobuf_message,
}
use go_ecoflow_exporter.Protobuf.Decoder.Decode.{or_else}
use go_ecoflow_exporter.Mqtt.Status.{mark_received}
use go_ecoflow_exporter.Mqtt.Topic.{get_sn_from_topic}
use go_ecoflow_exporter.Mqtt.Handler.{
  MqttMetricsExporter, Message, state_of, decode_as, dispatch_state, publish, with_params,
  of_result, handle_message, for_sn, message_handler,
}
use go_ecoflow_exporter.Mqtt.Handler.State.{
  outcome-of_headers, outcome-IsUnique, decode_as_params, lookup_in, params_in, with_params_state,
}

module _ {F64 F32 : Type 0} (fl : Floats F64 F32) (c : Codec F64 F32)
    (unmarshal_params : Bytes → Option (Dict (Any F64 F32))) where
  -- What a message says of a parameter of a configured device.
  unfoldable pub said : Text → Text → Message → Option (Any F64 F32)
  said sn k msg =
      if text_eq (get_sn_from_topic msg.topic) sn
      then lookup_in k (params_in fl c unmarshal_params msg.payload)
      else none

  -- The last word on a parameter in a sequence of messages, each with the time of its arrival.
  unfoldable pub last_said : Text → Text → List (ℕ × Message) → Option (Any F64 F32)
  last_said sn k [] = none
  last_said sn k ((now, msg) ∷ msgs) = or_else (last_said sn k msgs) (said sn k msg)

  ok_result :
      (r : DecodeResult F64 F32 × ProtobufDecoder) (ps : Dict (Any F64 F32))
      → (of_result fl c unmarshal_params r).0 ≡ some ps
      → r.0 ≡ decode_ok ps
  ok_result (decode_ok params, d) ps e = cc
  ok_result (decode_err err, d) ps e = absurd (cc)

  abbrev pub AreMaps : Type 0
  AreMaps =
      (payload : Bytes) (ps : Dict (Any F64 F32)) → unmarshal_params payload ≡ some ps → IsUnique ps

  decoded-IsUnique :
      (format : MessageFormat) (sn : Text) (payload : Bytes) (d : ProtobufDecoder)
      (ps : Dict (Any F64 F32))
      → AreMaps
      → (decode_as fl c unmarshal_params format sn payload d).0 ≡ some ps
      → IsUnique ps
  unfolding decode_as
  decoded-IsUnique format_json sn payload d ps unique e = unique payload ps e
  decoded-IsUnique format_unknown sn payload d ps unique e = absurd (cc)
  decoded-IsUnique format_protobuf sn payload d ps unique e =
      let d' = (log_first_protobuf_message sn d).0 in
      outcome-IsUnique fl c (c.unmarshal_headers payload) ps (
        sym (outcome-of_headers fl c payload d' (c.unmarshal_headers payload) refl)
        ∙ ok_result (decode_protobuf_message fl c payload d') ps e)

or_else_assoc : {V : Type 0} (a b d : Option V) → or_else a (or_else b d) ≡ or_else (or_else a b) d
or_else_assoc (some a) b d = refl
or_else_assoc none b d = refl

ne_of_has :
    {sn other : Text} (m : Dict Text) → sn ≡ other → has sn m ≡ false → has other m ≡ true → ⊥
ne_of_has m e h h' = cc (ap (λ x. has x m) e)

module _ {F64 F32 W : Type 0} where
  dispatch_state_devices :
      (now : ℕ) (sn : Text) (params : Dict (Any F64 F32)) (m : MqttMetricsExporter F64 F32 W)
      → (dispatch_state now sn params m).devices ≡ m.devices
  unfolding dispatch_state
  dispatch_state_devices now sn [] m = refl
  dispatch_state_devices now sn (entry ∷ params) m = refl

  with_params_devices :
      (now : ℕ) (sn format : Text) (params : Option (Dict (Any F64 F32)))
      (m : MqttMetricsExporter F64 F32 W)
      → (with_params now sn format params m).devices ≡ m.devices
  unfolding with_params publish
  with_params_devices now sn format none m = refl
  with_params_devices now sn format (some []) m = refl
  with_params_devices now sn format (some (entry ∷ params)) m = dispatch_state_devices now sn _ _

module _ {F64 F32 W : Type 0} (fl : Floats F64 F32) (c : Codec F64 F32)
    (unmarshal_params : Bytes → Option (Dict (Any F64 F32))) where
  unfoldable pub handle_messages :
      List (ℕ × Message) → MqttMetricsExporter F64 F32 W → MqttMetricsExporter F64 F32 W
  handle_messages [] m = m
  handle_messages ((now, msg) ∷ msgs) m =
      handle_messages msgs (message_handler fl c unmarshal_params now msg m).0

  for_sn_devices :
      (now : ℕ) (sn : Text) (payload : Bytes) (m : MqttMetricsExporter F64 F32 W)
      → (for_sn fl c unmarshal_params now sn payload m).0.devices ≡ m.devices
  unfolding handle_message
  for_sn_devices now [] payload m = refl
  for_sn_devices now (char ∷ chars) payload m = elim (Bool-cases (has (char ∷ chars) m.devices)) [
    | inl h ↦ rw (h) (with_params_devices now (char ∷ chars) _ _ _)
    | inr h ↦ rw (h) refl
  ]

  module _ (unique : AreMaps fl c unmarshal_params) where
    handle_message_state :
        (now : ℕ) (sn other k : Text) (payload : Bytes) (m : MqttMetricsExporter F64 F32 W)
        → lookup k
            (state_of other (handle_message fl c unmarshal_params now sn payload m).0.device_state)
          ≡ or_else
              (if text_eq sn other
                then lookup_in k (params_in fl c unmarshal_params payload)
                else none)
              (lookup k (state_of other m.device_state))
    unfolding handle_message
    handle_message_state now sn other k payload m =
        let format = detect_format fl c payload in
        let (params, decoder) =
          decode_as fl c unmarshal_params format sn payload m.protobuf_decoder in
        with_params_state now sn other k (format_string format) params
          (record m {
            status = (mark_received now sn m.status).0;
            protobuf_decoder = decoder;
            telemetry = mqtt_message sn (format_string format) m.telemetry;
          })
          (λ ps e.
            decoded-IsUnique fl c unmarshal_params format sn payload m.protobuf_decoder ps unique e)
        ∙ ap
            (λ ps.
              or_else (if text_eq sn other then lookup_in k ps else none)
                (lookup k (state_of other m.device_state)))
            (decode_as_params fl c unmarshal_params format sn [] payload m.protobuf_decoder
              (new_protobuf_decoder false))

    for_sn_state :
        (now : ℕ) (sn other k : Text) (payload : Bytes) (m : MqttMetricsExporter F64 F32 W)
        → has other m.devices ≡ true
        → other ≢ []
        → lookup k (state_of other (for_sn fl c unmarshal_params now sn payload m).0.device_state)
          ≡ or_else
              (if text_eq sn other
                then lookup_in k (params_in fl c unmarshal_params payload)
                else none)
              (lookup k (state_of other m.device_state))
    for_sn_state now [] other k payload m configured proper =
        rw (text_eq_no [] other (λ e. proper (sym e))) refl
    for_sn_state now (char ∷ chars) other k payload m configured proper =
        elim (Bool-cases (has (char ∷ chars) m.devices)) [
          | inl h ↦ rw (h) (handle_message_state now (char ∷ chars) other k payload m)
          | inr h ↦
              let differs : text_eq (char ∷ chars) other ≡ false =
                text_eq_no (char ∷ chars) other (λ e. ne_of_has m.devices e h configured) in
              rw (h, differs) refl
        ]

    -- After any messages, whichever devices sent them, the cached full state of a configured device gives
    -- for each parameter the value in the last message of that device that could be decoded and had it, and
    -- what it was before where there is none. Assumed: the serial number is not
    -- empty, and maps that encoding/json reads have distinct keys.
    pub handle_messages_latest :
        (msgs : List (ℕ × Message)) (sn k : Text) (m : MqttMetricsExporter F64 F32 W)
        → has sn m.devices ≡ true
        → sn ≢ []
        → lookup k (state_of sn (handle_messages msgs m).device_state)
          ≡ or_else
              (last_said fl c unmarshal_params sn k msgs)
              (lookup k (state_of sn m.device_state))
    unfolding handle_messages last_said said message_handler
    handle_messages_latest [] sn k m configured proper = refl
    handle_messages_latest ((now, msg) ∷ msgs) sn k m configured proper =
        let m' = (message_handler fl c unmarshal_params now msg m).0 in
        let devices = for_sn_devices now (get_sn_from_topic msg.topic) msg.payload m in
        handle_messages_latest msgs sn k m' (ap (λ d. has sn d) devices ∙ configured) proper
        ∙ ap (λ x. or_else (last_said fl c unmarshal_params sn k msgs) x)
            (for_sn_state now (get_sn_from_topic msg.topic) sn k msg.payload m configured proper)
        ∙ or_else_assoc (last_said fl c unmarshal_params sn k msgs)
            (said fl c unmarshal_params sn k msg) (lookup k (state_of sn m.device_state))
