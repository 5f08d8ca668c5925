-- ===== src/Protobuf/Tests.antt =====
-- The theorems on internal/protobuf at concrete values.
use go_ecoflow_exporter.Base.{
  text_eq, codes, false, none, some, [], ◌∷◌, ◌≡◌, ◌+◌, ◌<◌, ℕ, refl, arith, length,
}
use go_ecoflow_exporter.Base.Int.{ℤ, pos, negsuc}
use go_ecoflow_exporter.Base.Dict.{lookup, insert}
use go_ecoflow_exporter.Base.Decimal.{format_nat}
use go_ecoflow_exporter.Protobuf.Flatten.{flatten_message}
use go_ecoflow_exporter.Update.{float64}
use go_ecoflow_exporter.TestData.{test_floats}
use go_ecoflow_exporter.Protobuf.Message.{
  Header, Fields, uint_kind, int_kind, nested, done, field, bms_heart_beat_report, new_message_for,
}
use go_ecoflow_exporter.Protobuf.Decoder.{
  Codec, format_protobuf, detect_format, xor_decrypt, decode_protobuf_message, new_protobuf_decoder,
  count_of, decode_ok, decode_err, no_params, get_num, params_of_message, seq_byte, pack_prefix,
}
use go_ecoflow_exporter.Protobuf.Decoder.Xor.{
  AreBytes, IsLowByte, AreXored, xor_decrypt-xor_decrypt,
}
use go_ecoflow_exporter.Protobuf.Decoder.Decode.{decoded_params, failures}
use go_ecoflow_exporter.Protobuf.Decoder.Latest.{last_word, decode_protobuf_message_latest}
use go_ecoflow_exporter.Base.{List, Text, ◌⊎◌}
use go_ecoflow_exporter.Base.Dict.{Dict}
use go_ecoflow_exporter.Update.{Any}
use go_ecoflow_exporter.Base.Order.{Reordered}
use go_ecoflow_exporter.Protobuf.Order.{inside, exchanged, and_then}
use go_ecoflow_exporter.Protobuf.Visited.{IsWellNamed, params_of_message-SameFields}
use go_ecoflow_exporter.Protobuf.Packs.{packs_apart}

abbrev test_header : Header
test_header = record {
  pdata = 8 ∷ 77 ∷ [];
  src = pos 2;
  dest = pos 32;
  d_src = pos 1;
  d_dest = pos 1;
  enc_type = pos 1;
  check_type = pos 3;
  cmd_func = pos 32;
  cmd_id = pos 2;
  data_len = pos 2;
  need_ack = pos 0;
  is_ack = pos 0;
  seq = pos 5;
  product_id = pos 0;
  version = pos 3;
  payload_ver = pos 1;
  time_snap = pos 0;
  is_rw_cmd = pos 0;
  is_queue = pos 0;
  ack_type = pos 0;
  code = [];
  from = [];
  module_sn = [];
  device_sn = [];
}

abbrev unknown_header : Header
unknown_header = record test_header { cmd_id = pos 99 }

abbrev pack : Fields ℤ
pack = field (codes "num") (uint_kind 1) (field (codes "soc") (int_kind (pos 77)) done)

-- Every payload is the two headers, and every pdata holds a status with one nested message.
abbrev test_codec : Codec ℤ ℤ
test_codec = record {
  trim_space = λ b. b;
  unmarshal_object = λ b. none;
  unmarshal_headers = λ b. some (test_header ∷ unknown_header ∷ []);
  unmarshal_message = λ t b. some (field (codes "pd") (nested pack) done);
}

decrypted_pdata : xor_decrypt (8 ∷ 77 ∷ []) (pos 5) ≡ 13 ∷ 72 ∷ []
unfolding xor_decrypt seq_byte
decrypted_pdata = refl

negative_seq : seq_byte (negsuc 0) ≡ 255
unfolding seq_byte
negative_seq = refl

listed_command : new_message_for (pos 254) (pos 24) ≡ some bms_heart_beat_report
unfolding new_message_for
listed_command = refl

xor_decrypt-xor_decrypt_example :
    ((key : ℕ) × (key < 256)
      × IsLowByte (pos 5) key
      × AreXored key (8 ∷ 77 ∷ []) (xor_decrypt (8 ∷ 77 ∷ []) (pos 5)))
    × (xor_decrypt (xor_decrypt (8 ∷ 77 ∷ []) (pos 5)) (pos 5) ≡ 8 ∷ 77 ∷ [])
    × AreBytes (xor_decrypt (8 ∷ 77 ∷ []) (pos 5))
xor_decrypt-xor_decrypt_example =
    xor_decrypt-xor_decrypt (8 ∷ 77 ∷ []) (pos 5) (omega arith, (omega arith, tt))

abbrev two_headers : List Header
two_headers = test_header ∷ unknown_header ∷ []

decode_protobuf_message_latest_example :
    let ds = decoded_params test_floats test_codec two_headers in
    let (r, d') =
      decode_protobuf_message test_floats test_codec (1 ∷ []) (new_protobuf_decoder false) in
    (((length ds ≡ 0) × (r ≡ decode_err no_params))
      ⊎ ((0 < length ds)
          × ((params : Dict (Any ℤ ℤ)) × (r ≡ decode_ok params)
              × ((k : Text) → lookup k params ≡ last_word k ds))))
    × (count_of (codes "32:99") d'.unknown_commands
        ≡ count_of (codes "32:99") (new_protobuf_decoder false).unknown_commands
          + failures test_floats test_codec (codes "32:99") two_headers)
decode_protobuf_message_latest_example =
    decode_protobuf_message_latest test_floats test_codec (λ b ps e. absurd (cc)) (1 ∷ [])
      test_header (unknown_header ∷ []) (new_protobuf_decoder false) (codes "32:99") refl

detected : detect_format test_floats test_codec (1 ∷ []) ≡ format_protobuf
unfolding detect_format
detected = refl

abbrev later_pack : Fields ℤ
later_pack = field (codes "soc") (int_kind (pos 76)) (field (codes "num") (uint_kind 1) done)

pack_soc :
    lookup (codes "bms.1.soc") (params_of_message test_floats bms_heart_beat_report pack)
    ≡ some (float64 (pos 77))
unfolding params_of_message lookup flatten_message insert text_eq pack_prefix format_nat get_num
pack_soc = refl

later_soc :
    lookup (codes "bms.1.soc") (params_of_message test_floats bms_heart_beat_report later_pack)
    ≡ some (float64 (pos 76))
unfolding params_of_message lookup flatten_message insert text_eq pack_prefix format_nat get_num
later_soc = refl

packs_apart_example : get_num pack ≡ get_num later_pack
packs_apart_example =
    packs_apart test_floats pack later_pack (codes "bms.1.soc") (float64 (pos 77))
      (float64 (pos 76)) pack_soc later_soc

-- The same report, visited in two orders, also inside.
abbrev visited_once : Fields ℤ
visited_once =
    field (codes "pd")
      (nested
        (field (codes "soc") (int_kind (pos 77)) (field (codes "vol") (int_kind (pos 52)) done)))
      (field (codes "num") (uint_kind 1) done)

abbrev visited_again : Fields ℤ
visited_again = field (codes "num") (uint_kind 1) (
    field (codes "pd")
      (nested
        (field (codes "vol") (int_kind (pos 52)) (field (codes "soc") (int_kind (pos 77)) done)))
      done)

visited_once-IsWellNamed : IsWellNamed bms_heart_beat_report visited_once
visited_once-IsWellNamed = ground arith

params_of_message-SameFields_example :
    Reordered
      (params_of_message test_floats bms_heart_beat_report visited_once)
      (params_of_message test_floats bms_heart_beat_report visited_again)
params_of_message-SameFields_example =
    params_of_message-SameFields test_floats bms_heart_beat_report visited_once visited_again
      visited_once-IsWellNamed
      (and_then
        (inside (codes "pd") (field (codes "num") (uint_kind 1) done)
          (exchanged (codes "soc") (codes "vol") (int_kind (pos 77)) (int_kind (pos 52)) done))
        (exchanged (codes "pd") (codes "num")
          (nested (
            field (codes "vol") (int_kind (pos 52)) (field (codes "soc") (int_kind (pos 77)) done)))
          (uint_kind 1) done))
