-- ===== src/Protobuf/Decoder/Latest.antt =====
-- internal/protobuf/decoder.go: the parameters of a message, one by one.
use go_ecoflow_exporter.Base.{
  ℕ, ◌+◌, ◌<◌, ◌==◌, Text, true, false, Option, none, some, List, [], ◌∷◌, ◌≡◌, ◌⊎◌, refl, ap, ◌∙◌,
  inl, inr, arith, length, All, Bool-cases, Option-cases, if◌then◌else◌,
}
use go_ecoflow_exporter.Base.Dict.{Dict, lookup, IsUnique}
use go_ecoflow_exporter.Update.{Floats, Any}
use go_ecoflow_exporter.Protobuf.Message.{
  Bytes, Header, Fields, MessageType, bms_heart_beat_report, cms_heart_beat_report, property_upload,
  new_message_for,
}
use go_ecoflow_exporter.Protobuf.Order.{flatten_message-entries}
use go_ecoflow_exporter.Protobuf.Decoder.{
  Codec, PdataResult, unsupported, parse_error, decoded, params_of_message, as_json, clear_pdata,
  decode_protobuf_pdata, decode_pdata, copy_into, ProtobufDecoder, DecodeResult, count_of,
  no_params, decode_ok, decode_err, decode_protobuf_message,
}
use go_ecoflow_exporter.Protobuf.Decoder.Decode.{
  or_else, lookup-copy_into, copy_into-IsUnique, add_decoded, decoded_params, merge_all, failures,
  decode_protobuf_message_exact,
}

module _ {V : Type 0} where
  -- The last of the maps that has a key has the word on it.
  unfoldable pub last_word : Text → List (Dict V) → Option V
  last_word k [] = none
  last_word k (d ∷ ds) = elim (last_word k ds) [ some v ↦ some v | none ↦ lookup k d ]

  or_else_then :
      (later now before : Option V)
      → or_else later (or_else now before)
        ≡ or_else (elim later [ some v ↦ some v | none ↦ now ]) before
  or_else_then (some v) now before = refl
  or_else_then none now before = refl

or_else-none : {V : Type 0} (o : Option V) → or_else o none ≡ o
or_else-none (some v) = refl
or_else-none none = refl

module _ {F64 F32 : Type 0} (fl : Floats F64 F32) (c : Codec F64 F32) where
  -- A JSON object is read into a map, which holds a key once.
  abbrev pub ObjectsAreMaps : Type 0
  ObjectsAreMaps =
      (b : Bytes) (ps : Dict (Any F64 F32)) → c.unmarshal_object b ≡ some ps → IsUnique ps

  params_of_message-IsUnique :
      (t : MessageType) (m : Fields F64) → IsUnique (params_of_message fl t m)
  unfolding params_of_message
  params_of_message-IsUnique bms_heart_beat_report m =
      rw (flatten_message-entries fl m _ false []) (copy_into-IsUnique [] _ tt)
  params_of_message-IsUnique cms_heart_beat_report m =
      rw (flatten_message-entries fl m [] true []) (copy_into-IsUnique [] _ tt)
  params_of_message-IsUnique property_upload m =
      rw (flatten_message-entries fl m [] false []) (copy_into-IsUnique [] _ tt)

  lookup-merge_all :
      (k : Text) (ds : List (Dict (Any F64 F32))) (params : Dict (Any F64 F32))
      → All IsUnique ds
      → lookup k (merge_all fl c params ds) ≡ or_else (last_word k ds) (lookup k params)
  unfolding merge_all last_word
  lookup-merge_all k [] params h = refl
  lookup-merge_all k (d ∷ ds) params (unique, h) =
      lookup-merge_all k ds (copy_into params d) h
      ∙ ap (or_else (last_word k ds)) (lookup-copy_into k params d unique)
      ∙ or_else_then (last_word k ds) (lookup k d) (lookup k params)

  module _ (maps : ObjectsAreMaps) where
    unfoldable IsUniqueResult : PdataResult F64 F32 → Type 0
    IsUniqueResult (decoded ps) = IsUnique ps
    IsUniqueResult _ = Unit

    as_json-IsUnique :
        (b : Bytes) (ps : Dict (Any F64 F32)) → as_json fl c b ≡ some ps → IsUnique ps
    as_json-IsUnique b ps e = maps b ps (ground (arith, e))

    decode_protobuf_pdata-IsUniqueResult :
        (h : Header) (pdata : Bytes)
        → IsUniqueResult (decode_protobuf_pdata fl c h.cmd_func h.cmd_id pdata)
    unfolding decode_protobuf_pdata IsUniqueResult
    decode_protobuf_pdata-IsUniqueResult h pdata =
        elim (Option-cases (new_message_for h.cmd_func h.cmd_id)) [
          | inl e ↦ rw (IsUniqueResult, e) tt
          | inr (t, e) ↦ elim (Option-cases (c.unmarshal_message t pdata)) [
            | inl e' ↦ rw (IsUniqueResult, e, e') tt
            | inr (m, e') ↦ rw (IsUniqueResult, e, e') (params_of_message-IsUnique t m)
          ]
        ]

    decode_pdata-IsUniqueResult : (h : Header) → IsUniqueResult (decode_pdata fl c h)
    unfolding decode_pdata IsUniqueResult
    decode_pdata-IsUniqueResult h =
        elim (Option-cases (as_json fl c (c.trim_space (clear_pdata fl c h)))) [
          | inl e ↦ rw (IsUniqueResult, e) (decode_protobuf_pdata-IsUniqueResult h _)
          | inr (ps, e) ↦ rw (IsUniqueResult, e) (as_json-IsUnique _ ps e)
        ]

    add_decoded-IsUnique :
        (r : PdataResult F64 F32) (ds : List (Dict (Any F64 F32)))
        → IsUniqueResult r
        → All IsUnique ds
        → All IsUnique (add_decoded fl c r ds)
    unfolding IsUniqueResult
    add_decoded-IsUnique unsupported ds h hs = hs
    add_decoded-IsUnique parse_error ds h hs = hs
    add_decoded-IsUnique (decoded ps) ds h hs = (h, hs)

    decoded_params-IsUnique : (hs : List Header) → All IsUnique (decoded_params fl c hs)
    unfolding decoded_params
    decoded_params-IsUnique [] = tt
    decoded_params-IsUnique (h ∷ hs) =
        add_decoded-IsUnique (decode_pdata fl c h) (decoded_params fl c hs)
          (decode_pdata-IsUniqueResult h) (decoded_params-IsUnique hs)

    if_some_decoded :
        (n : ℕ) (r : DecodeResult F64 F32) (params : Dict (Any F64 F32))
        → r ≡ (if n == 0 then decode_err no_params else decode_ok params)
        → ((n ≡ 0) × (r ≡ decode_err no_params)) ⊎ ((0 < n) × (r ≡ decode_ok params))
    if_some_decoded n r params e = elim (Bool-cases (n == 0)) [
      | inl none_decoded ↦ inl (ground arith, e ∙ rw (none_decoded) refl)
      | inr some_decoded ↦ inr (ground arith, e ∙ rw (some_decoded) refl)
    ]

    -- A message with headers is refused exactly if none of its headers can be decoded. Else it yields for each parameter what
    -- the last of its decodable headers that has the parameter says of it, and no parameter that none of them
    -- has. Either way every header that cannot be decoded adds one to the count of its command, and nothing else does.
    -- Assumed: a JSON object is read into a map, which holds each key once.
    pub decode_protobuf_message_latest :
        (payload : Bytes) (h : Header) (hs : List Header) (d : ProtobufDecoder) (command : Text)
        → c.unmarshal_headers payload ≡ some (h ∷ hs)
        → let ds = decoded_params fl c (h ∷ hs) in
          let (r, d') = decode_protobuf_message fl c payload d in
          (((length ds ≡ 0) × (r ≡ decode_err no_params))
            ⊎ ((0 < length ds)
                × ((params : Dict (Any F64 F32)) × (r ≡ decode_ok params)
                    × ((k : Text) → lookup k params ≡ last_word k ds))))
          × (count_of command d'.unknown_commands
              ≡ count_of command d.unknown_commands + failures fl c command (h ∷ hs))
    unfolding lookup
    decode_protobuf_message_latest payload h hs d command e =
        let ds = decoded_params fl c (h ∷ hs) in
        let (result, counted) = decode_protobuf_message_exact fl c payload h hs d command e in
        (
          elim (if_some_decoded (length ds) _ (merge_all fl c [] ds) result) [
            | inl refused ↦ inl refused
            | inr (some_decoded, ok) ↦ inr (
              some_decoded,
              (
                merge_all fl c [] ds,
                ok,
                λ k.
                    lookup-merge_all k ds [] (decoded_params-IsUnique (h ∷ hs))
                    ∙ or_else-none (last_word k ds),
              ),
            )
          ],
          counted,
        )
