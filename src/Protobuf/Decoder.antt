-- ===== src/Protobuf/Decoder.antt =====
-- internal/protobuf/decoder.go: the format of a payload, the decryption of pdata and the decoding of all
-- headers of a message.
pub mod Xor
pub mod Decode
pub mod Latest
use Prim.Native.Nat.{bit_xor}
use go_ecoflow_exporter.Base.{
  ℕ, ◌+◌, ◌-◌, ◌%◌, Text, codes, text_eq, dot, Bool, true, false, not, ◌&&◌, Option, none, some,
  List, [], ◌∷◌, ◌++◌, map, leb, ◌==◌, length, if◌then◌else◌,
}
use go_ecoflow_exporter.Base.Int.{ℤ, pos, negsuc, int_eq}
use go_ecoflow_exporter.Base.Dict.{Dict, lookup, insert, has}
use go_ecoflow_exporter.Base.Decimal.{format_nat, format_int}
use go_ecoflow_exporter.Update.{Floats, Any}
use go_ecoflow_exporter.Protobuf.Message.{
  Bytes, Header, Fields, FieldValue, uint_kind, done, field, MessageType, property_upload,
  cms_heart_beat_report, bms_heart_beat_report, new_message_for,
}
use go_ecoflow_exporter.Protobuf.Flatten.{flatten_message}

pub data MessageFormat : Type 0 where
  format_unknown format_json format_protobuf : MessageFormat

-- MessageFormat.String
unfoldable pub format_string : MessageFormat → Text
format_string format_json = codes "json"
format_string format_protobuf = codes "protobuf"
format_string format_unknown = codes "unknown"

-- bytes.TrimSpace, encoding/json and google.golang.org/protobuf; `none` is an error.
pub record Codec (F64 F32 : Type 0) : Type 0 where
  pub trim_space : Bytes → Bytes
  pub unmarshal_object : Bytes → Option (Dict (Any F64 F32))
  pub unmarshal_headers : Bytes → Option (List Header)
  pub unmarshal_message : MessageType → Bytes → Option (Fields F64)

abbrev is_some {ℓ} : {A : Type ℓ} → Option A → Bool
is_some none = false
is_some (some _) = true

unfoldable pub first_is : ℕ → Bytes → Bool
first_is c [] = false
first_is c (b ∷ bs) = b == c

unfoldable pub last_is : ℕ → Bytes → Bool
last_is c [] = false
last_is c (b ∷ []) = b == c
last_is c (b ∷ b' ∷ bs) = last_is c (b' ∷ bs)

-- The lowest byte of an int32 in two's complement, `byte(seq & 0xFF)`.
unfoldable pub seq_byte : ℤ → ℕ
seq_byte (pos n) = n % 256
seq_byte (negsuc n) = 255 - n % 256

unfoldable pub xor_decrypt : Bytes → ℤ → Bytes
xor_decrypt bytes seq = map (λ b. bit_xor b (seq_byte seq)) bytes

unfoldable pub decrypted : Header → Bool
decrypted h =
    int_eq h.enc_type (pos 1) && (not (int_eq h.seq (pos 0)) && not (int_eq h.src (pos 32)))

abbrev uint_of : {F64 : Type 0} → FieldValue F64 → ℕ
uint_of (uint_kind n) = n
uint_of _ = 0

-- `GetNum` of a BMSHeartBeatReport: its field `num`, or 0 where that is not set.
unfoldable pub get_num : {F64 : Type 0} → Fields F64 → ℕ
get_num done = 0
get_num (field name v rest) = if text_eq name (codes "num") then uint_of v else get_num rest

-- The prefix that keeps the reports of several battery packs apart.
unfoldable pub pack_prefix : ℕ → Text
pack_prefix num = codes "bms." ++ (format_nat num ++ dot ∷ [])

-- What becomes of binary pdata.
pub data PdataResult (F64 F32 : Type 0) : Type 0 where
  unsupported parse_error : PdataResult F64 F32
  decoded : Dict (Any F64 F32) → PdataResult F64 F32

module _ {F64 F32 : Type 0} (fl : Floats F64 F32) where
  -- The switch on the message's type.
  unfoldable pub params_of_message : MessageType → Fields F64 → Dict (Any F64 F32)
  params_of_message bms_heart_beat_report m =
      flatten_message fl m (pack_prefix (get_num m)) false []
  params_of_message cms_heart_beat_report m = flatten_message fl m [] true []
  params_of_message property_upload m = flatten_message fl m [] false []

module _ {F64 F32 : Type 0} (fl : Floats F64 F32) (c : Codec F64 F32) where
  unfoldable pub detect_format : Bytes → MessageFormat
  detect_format payload =
      let trimmed = c.trim_space payload in
      if (leb 2 (length trimmed) && (first_is b'{' trimmed && last_is b'}' trimmed))
        && is_some (c.unmarshal_object trimmed)
      then format_json
      else elim (c.unmarshal_headers payload) [
        | none ↦ format_unknown
        | some [] ↦ format_unknown
        | some (h ∷ hs) ↦ format_protobuf
      ]

  abbrev unmarshalled : MessageType → Option (Fields F64) → PdataResult F64 F32
  unmarshalled t none = parse_error
  unmarshalled t (some m) = decoded (params_of_message fl t m)

  unfoldable pub decode_protobuf_pdata : ℤ → ℤ → Bytes → PdataResult F64 F32
  decode_protobuf_pdata cmd_func cmd_id pdata = elim (new_message_for cmd_func cmd_id) [
    | none ↦ unsupported
    | some t ↦ unmarshalled t (c.unmarshal_message t pdata)
  ]

  abbrev as_json : Bytes → Option (Dict (Any F64 F32))
  as_json trimmed = if first_is b'{' trimmed then c.unmarshal_object trimmed else none

  unfoldable pub clear_pdata : Header → Bytes
  clear_pdata h = if decrypted h then xor_decrypt h.pdata h.seq else h.pdata

  -- JSON if it reads as such, else what the command says.
  unfoldable pub decode_pdata : Header → PdataResult F64 F32
  decode_pdata h =
      let pdata = clear_pdata h in
      elim (as_json (c.trim_space pdata)) [
        | some params ↦ decoded params
        | none ↦ decode_protobuf_pdata h.cmd_func h.cmd_id pdata
      ]

module _ {V : Type 0} where
  -- for k, v := range from { into[k] = v }
  unfoldable pub copy_into : Dict V → Dict V → Dict V
  copy_into into [] = into
  copy_into into ((k, v) ∷ from) = copy_into (insert k v into) from

pub record ProtobufDecoder : Type 0 where
  pub debug : Bool
  pub unknown_commands : Dict ℕ
  pub seen_devices : Dict Bool

unfoldable pub new_protobuf_decoder : Bool → ProtobufDecoder
new_protobuf_decoder debug = record { debug = debug; unknown_commands = []; seen_devices = [] }

-- A missing key reads as the zero value.
abbrev pub count_of : Text → Dict ℕ → ℕ
count_of k m = elim (lookup k m) [ none ↦ 0 | some n ↦ n ]

-- The new decoder, and whether the message is logged as the device's first.
unfoldable pub log_first_protobuf_message : Text → ProtobufDecoder → ProtobufDecoder × Bool
log_first_protobuf_message sn d =
    if d.debug
    then (record d { seen_devices = insert sn true d.seen_devices }, not (has sn d.seen_devices))
    else (d, false)

-- fmt.Sprintf("%d:%d", cmdFunc, cmdId)
unfoldable pub command_key : ℤ → ℤ → Text
command_key cmd_func cmd_id = format_int cmd_func ++ b':' ∷ format_int cmd_id

-- The new decoder, whether the command is logged in full, and whether it is logged as frequent.
unfoldable pub log_unknown_command : ℤ → ℤ → ProtobufDecoder → ProtobufDecoder × Bool × Bool
log_unknown_command cmd_func cmd_id d =
    let key = command_key cmd_func cmd_id in
    let count = count_of key d.unknown_commands + 1 in
    (
      record d { unknown_commands = insert key count d.unknown_commands },
      count == 1,
      count % 100 == 0,
    )

-- The variables of the loop over the headers, with the decoder.
pub record Progress (F64 F32 : Type 0) : Type 0 where
  pub params : Dict (Any F64 F32)
  pub encrypted_count : ℕ
  pub parsed_count : ℕ
  pub failed_count : ℕ
  pub decoder : ProtobufDecoder

pub data DecodeError : Type 0 where
  cannot_unmarshal no_headers no_params : DecodeError

pub data DecodeResult (F64 F32 : Type 0) : Type 0 where
  decode_ok : Dict (Any F64 F32) → DecodeResult F64 F32
  decode_err : DecodeError → DecodeResult F64 F32

module _ {F64 F32 : Type 0} (fl : Floats F64 F32) (c : Codec F64 F32) where
  abbrev pub count_decrypted : Header → ℕ → ℕ
  count_decrypted h n = if decrypted h then n + 1 else n

  abbrev pub with_result : Header → PdataResult F64 F32 → Progress F64 F32 → Progress F64 F32
  with_result h (decoded params) p = record p {
    params = copy_into p.params params;
    encrypted_count = count_decrypted h p.encrypted_count;
    parsed_count = p.parsed_count + 1;
  }
  with_result h _ p = record p {
    encrypted_count = count_decrypted h p.encrypted_count;
    failed_count = p.failed_count + 1;
    decoder = (log_unknown_command h.cmd_func h.cmd_id p.decoder).0;
  }

  -- The loop's body and the loop.
  unfoldable pub decode_header : Header → Progress F64 F32 → Progress F64 F32
  decode_header h p = with_result h (decode_pdata fl c h) p

  unfoldable pub decode_headers : List Header → Progress F64 F32 → Progress F64 F32
  decode_headers [] p = p
  decode_headers (h ∷ hs) p = decode_headers hs (decode_header h p)

  abbrev pub no_progress : ProtobufDecoder → Progress F64 F32
  no_progress d = record {
    params = [];
    encrypted_count = 0;
    parsed_count = 0;
    failed_count = 0;
    decoder = d;
  }

  abbrev decode_all : List Header → ProtobufDecoder → DecodeResult F64 F32 × ProtobufDecoder
  decode_all hs d =
      let p = decode_headers hs (no_progress d) in
      (if p.parsed_count == 0 then decode_err no_params else decode_ok p.params, p.decoder)

  unfoldable pub decode_protobuf_message :
      Bytes → ProtobufDecoder → DecodeResult F64 F32 × ProtobufDecoder
  decode_protobuf_message payload d = elim (c.unmarshal_headers payload) [
    | none ↦ (decode_err cannot_unmarshal, d)
    | some [] ↦ (decode_err no_headers, d)
    | some (h ∷ hs) ↦ decode_all (h ∷ hs) d
  ]
