-- ===== src/Mqtt/Handler/State.antt =====
-- mqtt_exporter.go: what messages leave in the cached states of the devices.
use go_ecoflow_exporter.Base.{
  ℕ, ◌==◌, Text, text_eq, text_eq_iff, Bool, true, false, Option, none, some, List, [], ◌∷◌, ◌≡◌,
  refl, sym, ap, ◌∙◌, inl, inr, Bool-cases, length, arith, if◌then◌else◌,
}
use go_ecoflow_exporter.Base.Dict.{Dict, lookup, insert, IsUnique, lookup-insert}
use go_ecoflow_exporter.Update.{Floats, Any}
use go_ecoflow_exporter.Protobuf.Message.{Bytes, Header}
use go_ecoflow_exporter.Protobuf.Decoder.{
  MessageFormat, format_unknown, format_json, format_protobuf, Codec, detect_format,
  ProtobufDecoder, new_protobuf_decoder, decode_protobuf_message, DecodeResult, decode_ok,
  decode_err, copy_into, no_params, cannot_unmarshal, no_headers, log_first_protobuf_message,
}
use go_ecoflow_exporter.Protobuf.Decoder.Decode.{
  copy_into-IsUnique, or_else, lookup-copy_into, decode_protobuf_message_exact, decoded_params,
  merge_all,
}
use go_ecoflow_exporter.Mqtt.Handler.{
  MqttMetricsExporter, state_of, decode_as, dispatch_state, publish, with_params, of_result,
}

module _ {F64 F32 : Type 0} (fl : Floats F64 F32) (c : Codec F64 F32) where
  merge_all-IsUnique :
      (params : Dict (Any F64 F32)) (ds : List (Dict (Any F64 F32)))
      → IsUnique params
      → IsUnique (merge_all fl c params ds)
  unfolding merge_all
  merge_all-IsUnique params [] h = h
  merge_all-IsUnique params (d ∷ ds) h =
      merge_all-IsUnique (copy_into params d) ds (copy_into-IsUnique params d h)

  -- The result of the decoder without what it has seen.
  abbrev outcome : Option (List Header) → DecodeResult F64 F32
  outcome none = decode_err cannot_unmarshal
  outcome (some []) = decode_err no_headers
  outcome (some (h ∷ hs)) =
      let ds = decoded_params fl c (h ∷ hs) in
      if length ds == 0 then decode_err no_params else decode_ok (merge_all fl c [] ds)

  pub outcome-of_headers :
      (payload : Bytes) (d : ProtobufDecoder) (headers : Option (List Header))
      → c.unmarshal_headers payload ≡ headers
      → (decode_protobuf_message fl c payload d).0 ≡ outcome headers
  unfolding decode_protobuf_message
  outcome-of_headers payload d none e = rw (e, decode_protobuf_message) refl
  outcome-of_headers payload d (some []) e = rw (e, decode_protobuf_message) refl
  outcome-of_headers payload d (some (h ∷ hs)) e =
      (decode_protobuf_message_exact fl c payload h hs d [] e).0

  if_ok :
      (b : Bool) (x params : Dict (Any F64 F32))
      → (if b then decode_err no_params else decode_ok x) ≡ decode_ok params
      → params ≡ x
  if_ok true x params e = absurd (cc)
  if_ok false x params e = cc

  pub outcome-IsUnique :
      (headers : Option (List Header)) (params : Dict (Any F64 F32))
      → outcome headers ≡ decode_ok params
      → IsUnique params
  outcome-IsUnique none params e = absurd (cc)
  outcome-IsUnique (some []) params e = absurd (cc)
  outcome-IsUnique (some (h ∷ hs)) params e =
      let unique = merge_all-IsUnique [] (decoded_params fl c (h ∷ hs)) tt in
      rw
        (if_ok (length (decoded_params fl c (h ∷ hs)) == 0)
          (merge_all fl c [] (decoded_params fl c (h ∷ hs))) params e)
        unique

if_none : {V : Type 0} (b : Bool) (o : Option V) → o ≡ or_else (if b then none else none) o
if_none true o = refl
if_none false o = refl

module _ {F64 F32 W : Type 0} where
  publish_case :
      (now : ℕ) (sn other : Text) (full_state : Dict (Any F64 F32))
      (m : MqttMetricsExporter F64 F32 W)
      → state_of other
          (dispatch_state now sn full_state
            (record m { device_state = insert sn full_state m.device_state })).device_state
        ≡ (if text_eq sn other then full_state else state_of other m.device_state)
  unfolding dispatch_state
  publish_case now sn other [] m = ground (arith, lookup-insert sn other [] m.device_state)
  publish_case now sn other (entry ∷ rest) m =
      ground (arith, lookup-insert sn other (entry ∷ rest) m.device_state)

  publish_state :
      (now : ℕ) (sn other : Text) (params : Dict (Any F64 F32)) (m : MqttMetricsExporter F64 F32 W)
      → state_of other (publish now sn params m).device_state ≡ (
          if text_eq sn other
          then copy_into (state_of sn m.device_state) params
          else state_of other m.device_state)
  unfolding publish dispatch_state
  publish_state now sn other params m =
      publish_case now sn other (copy_into (state_of sn m.device_state) params) m

abbrev pub lookup_in : {V : Type 0} → Text → Option (Dict V) → Option V
lookup_in k none = none
lookup_in k (some m) = lookup k m

module _ {F64 F32 : Type 0} (fl : Floats F64 F32) (c : Codec F64 F32)
    (unmarshal_params : Bytes → Option (Dict (Any F64 F32))) where
  -- The parameters of a payload, `none` where it cannot be decoded.
  abbrev pub params_in : Bytes → Option (Dict (Any F64 F32))
  params_in payload =
      (decode_as fl c unmarshal_params (detect_format fl c payload) [] payload
        (new_protobuf_decoder false)).0

  result_case :
      (r r' : DecodeResult F64 F32 × ProtobufDecoder)
      → r.0 ≡ r'.0
      → (of_result fl c unmarshal_params r).0 ≡ (of_result fl c unmarshal_params r').0
  result_case (decode_ok params, d) (decode_ok params', d') e = cc
  result_case (decode_ok params, d) (decode_err err, d') e = absurd (cc)
  result_case (decode_err err, d) (decode_ok params', d') e = absurd (cc)
  result_case (decode_err err, d) (decode_err err', d') e = refl

  pub decode_as_params :
      (format : MessageFormat) (sn sn' : Text) (payload : Bytes) (d d' : ProtobufDecoder)
      → (decode_as fl c unmarshal_params format sn payload d).0
        ≡ (decode_as fl c unmarshal_params format sn' payload d').0
  unfolding decode_as
  decode_as_params format_json sn sn' payload d d' = refl
  decode_as_params format_unknown sn sn' payload d d' = refl
  decode_as_params format_protobuf sn sn' payload d d' =
      let headers = c.unmarshal_headers payload in
      result_case (decode_protobuf_message fl c payload (log_first_protobuf_message sn d).0)
        (decode_protobuf_message fl c payload (log_first_protobuf_message sn' d').0)
        (outcome-of_headers fl c payload (log_first_protobuf_message sn d).0 headers refl
          ∙ sym
              (outcome-of_headers fl c payload (log_first_protobuf_message sn' d').0 headers refl))

module _ {F64 F32 W : Type 0} where
  -- Published parameters go over those of the device's state.
  lookup-publish :
      (now : ℕ) (sn other k : Text) (params : Dict (Any F64 F32))
      (m : MqttMetricsExporter F64 F32 W)
      → IsUnique params
      → lookup k (state_of other (publish now sn params m).device_state)
        ≡ or_else
            (if text_eq sn other then lookup k params else none)
            (lookup k (state_of other m.device_state))
  lookup-publish now sn other k params m h =
      ap (λ state. lookup k state) (publish_state now sn other params m)
      ∙ elim (Bool-cases (text_eq sn other)) [
        | inl same ↦ rw (same) (
            lookup-copy_into k (state_of sn m.device_state) params h
            ∙ ap (λ x. or_else (lookup k params) (lookup k (state_of x m.device_state)))
                ((text_eq_iff sn other).0 same))
        | inr differs ↦ rw (differs) refl
      ]

  pub with_params_state :
      (now : ℕ) (sn other k format : Text) (params : Option (Dict (Any F64 F32)))
      (m : MqttMetricsExporter F64 F32 W)
      → ((ps : Dict (Any F64 F32)) → params ≡ some ps → IsUnique ps)
      → lookup k (state_of other (with_params now sn format params m).device_state)
        ≡ or_else
            (if text_eq sn other then lookup_in k params else none)
            (lookup k (state_of other m.device_state))
  unfolding with_params
  with_params_state now sn other k format none m h =
      if_none {V = Any F64 F32} (text_eq sn other) (lookup k (state_of other m.device_state))
  with_params_state now sn other k format (some []) m h =
      unfold lookup in
      if_none {V = Any F64 F32} (text_eq sn other) (lookup k (state_of other m.device_state))
  with_params_state now sn other k format (some (entry ∷ ps)) m h =
      lookup-publish now sn other k (entry ∷ ps) m (h (entry ∷ ps) refl)
