-- ===== src/Protobuf/Decoder/Decode.antt =====
-- internal/protobuf/decoder.go: `DecodeProtobufMessage` against the list of what its headers hold.
use native.Mathlib.Nat.{zero-add}
use go_ecoflow_exporter.Base.{
  ℕ, ◌+◌, Text, text_eq, text_eq_iff, Option, none, some, List, [], ◌∷◌, ◌≡◌, ◌≢◌, refl, ◌∙◌, arith,
  length, ◌==◌, if◌then◌else◌,
}
use go_ecoflow_exporter.Base.Dict.{Dict, lookup, insert, IsUnique, insert-IsUnique, lookup-insert}
use go_ecoflow_exporter.Update.{Floats, Any}
use go_ecoflow_exporter.Protobuf.Message.{Bytes, Header}
use go_ecoflow_exporter.Protobuf.Decoder.{
  format_protobuf, Codec, detect_format, PdataResult, unsupported, parse_error, decoded,
  decode_pdata, copy_into, ProtobufDecoder, count_of, command_key, log_unknown_command, Progress,
  cannot_unmarshal, no_headers, no_params, decode_ok, decode_err, with_result, decode_header,
  decode_headers, no_progress, decode_protobuf_message,
}

module _ {V : Type 0} where
  -- What was copied, or else what was there.
  abbrev pub or_else : Option V → Option V → Option V
  or_else (some v) o = some v
  or_else none o = o

  pub lookup-copy_into :
      (k : Text) (into from : Dict V)
      → IsUnique from
      → lookup k (copy_into into from) ≡ or_else (lookup k from) (lookup k into)
  unfolding copy_into lookup
  lookup-copy_into k into [] h = refl
  lookup-copy_into k into ((j, v) ∷ from) h = ground (
    arith,
    lookup-copy_into k (insert j v into) from h.1,
    lookup-insert j k v into,
    text_eq_iff j k,
  )

module _ {V : Type 0} where
  pub copy_into-IsUnique : (into from : Dict V) → IsUnique into → IsUnique (copy_into into from)
  unfolding copy_into
  copy_into-IsUnique into [] h = h
  copy_into-IsUnique into ((k, v) ∷ from) h =
      copy_into-IsUnique (insert k v into) from (insert-IsUnique k v into h)

count_insert :
    (k key : Text) (m : Dict ℕ) (n : ℕ)
    → count_of k (insert key (count_of key m + 1) m) + n
      ≡ count_of k m + (if text_eq key k then n + 1 else n)
count_insert k key m n =
    ground (arith, lookup-insert key k (count_of key m + 1) m, text_eq_iff key k)

module _ {F64 F32 : Type 0} (fl : Floats F64 F32) (c : Codec F64 F32) where
  -- The parameters of the headers that can be decoded, in order.
  abbrev pub add_decoded :
      PdataResult F64 F32 → List (Dict (Any F64 F32)) → List (Dict (Any F64 F32))
  add_decoded (decoded params) rest = params ∷ rest
  add_decoded _ rest = rest

  unfoldable pub decoded_params : List Header → List (Dict (Any F64 F32))
  decoded_params [] = []
  decoded_params (h ∷ hs) = add_decoded (decode_pdata fl c h) (decoded_params hs)

  unfoldable pub merge_all : Dict (Any F64 F32) → List (Dict (Any F64 F32)) → Dict (Any F64 F32)
  merge_all params [] = params
  merge_all params (d ∷ ds) = merge_all (copy_into params d) ds

  -- The headers of a command that cannot be decoded.
  abbrev add_failure : Text → Header → PdataResult F64 F32 → ℕ → ℕ
  add_failure k h (decoded params) n = n
  add_failure k h _ n = if text_eq (command_key h.cmd_func h.cmd_id) k then n + 1 else n

  unfoldable pub failures : Text → List Header → ℕ
  failures k [] = 0
  failures k (h ∷ hs) = add_failure k h (decode_pdata fl c h) (failures k hs)

  module _ (k : Text) (h : Header) (p : Progress F64 F32) where
    -- One header: decoded, or counted as failed.
    step_params :
        (r : PdataResult F64 F32) (hs : List (Dict (Any F64 F32)))
        → merge_all (with_result fl c h r p).params hs ≡ merge_all p.params (add_decoded r hs)
    unfolding merge_all
    step_params unsupported hs = refl
    step_params parse_error hs = refl
    step_params (decoded params) hs = refl

    step_parsed :
        (r : PdataResult F64 F32) (hs : List (Dict (Any F64 F32)))
        → (with_result fl c h r p).parsed_count + length hs
          ≡ p.parsed_count + length (add_decoded r hs)
    step_parsed unsupported hs = refl
    step_parsed parse_error hs = refl
    step_parsed (decoded params) hs = omega arith

    step_unknown :
        (r : PdataResult F64 F32) (n : ℕ)
        → count_of k (with_result fl c h r p).decoder.unknown_commands + n
          ≡ count_of k p.decoder.unknown_commands + add_failure k h r n
    unfolding log_unknown_command
    step_unknown unsupported n =
        count_insert k (command_key h.cmd_func h.cmd_id) p.decoder.unknown_commands n
    step_unknown parse_error n =
        count_insert k (command_key h.cmd_func h.cmd_id) p.decoder.unknown_commands n
    step_unknown (decoded params) n = refl

  decode_headers_params :
      (hs : List Header) (p : Progress F64 F32)
      → (decode_headers fl c hs p).params ≡ merge_all p.params (decoded_params hs)
  unfolding decode_headers decode_header decoded_params
  decode_headers_params [] p = unfold merge_all in refl
  decode_headers_params (h ∷ hs) p =
      decode_headers_params hs (decode_header fl c h p)
      ∙ step_params [] h p (decode_pdata fl c h) (decoded_params hs)

  decode_headers_parsed :
      (hs : List Header) (p : Progress F64 F32)
      → (decode_headers fl c hs p).parsed_count ≡ p.parsed_count + length (decoded_params hs)
  unfolding decode_headers decode_header decoded_params
  decode_headers_parsed [] p = omega arith
  decode_headers_parsed (h ∷ hs) p =
      decode_headers_parsed hs (decode_header fl c h p)
      ∙ step_parsed [] h p (decode_pdata fl c h) (decoded_params hs)

  decode_headers_unknown :
      (k : Text) (hs : List Header) (p : Progress F64 F32)
      → count_of k (decode_headers fl c hs p).decoder.unknown_commands
        ≡ count_of k p.decoder.unknown_commands + failures k hs
  unfolding decode_headers decode_header failures
  decode_headers_unknown k [] p = omega arith
  decode_headers_unknown k (h ∷ hs) p =
      decode_headers_unknown k hs (decode_header fl c h p)
      ∙ step_unknown k h p (decode_pdata fl c h) (failures k hs)

  -- A message with headers decodes exactly if one of its headers does; its parameters are then those of
  -- its decodable headers, merged in order, so that a later header wins. Every header that cannot be
  -- decoded adds one to the count of its command, and nothing else does.
  pub decode_protobuf_message_exact :
      (payload : Bytes) (h : Header) (hs : List Header) (d : ProtobufDecoder) (k : Text)
      → c.unmarshal_headers payload ≡ some (h ∷ hs)
      → let ds = decoded_params (h ∷ hs) in
        ((decode_protobuf_message fl c payload d).0
          ≡ (if length ds == 0 then decode_err no_params else decode_ok (merge_all [] ds)))
        × (count_of k (decode_protobuf_message fl c payload d).1.unknown_commands
            ≡ count_of k d.unknown_commands + failures k (h ∷ hs))
  unfolding decode_protobuf_message
  decode_protobuf_message_exact payload h hs d k e =
      let p = no_progress fl c d in
      rw (e, decode_protobuf_message)
        (
          rw (decode_headers_parsed (h ∷ hs) p, decode_headers_params (h ∷ hs) p)
              (rw zero-add refl),
          decode_headers_unknown k (h ∷ hs) p,
        )

  -- A payload that was detected as protobuf is not refused for its outer structure: it unmarshals and
  -- has a header.
  pub detect_format-decode :
      (payload : Bytes) (d : ProtobufDecoder)
      → detect_format fl c payload ≡ format_protobuf
      → ((decode_protobuf_message fl c payload d).0 ≢ decode_err cannot_unmarshal)
        × ((decode_protobuf_message fl c payload d).0 ≢ decode_err no_headers)
  unfolding detect_format decode_protobuf_message
  detect_format-decode payload d h = (ground arith, ground arith)
