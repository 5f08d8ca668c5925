-- ===== src/Protobuf/Message.antt =====
-- internal/protobuf/ecoflow.pb.go: the messages as the decoder sees them, and messages.go: which message
-- a command carries. Marshalled bytes are numbers below 256; an int32 is the integer that it stands for.
use go_ecoflow_exporter.Base.{
  ℕ, Text, Bool, false, ◌&&◌, ◌||◌, Option, none, some, List, [], ◌∷◌, if◌then◌else◌,
}
use go_ecoflow_exporter.Base.Int.{ℤ, pos, int_eq}

abbrev pub Bytes : Type 0
Bytes = List ℕ

pub record Header : Type 0 where
  pub pdata : Bytes
  pub src : ℤ
  pub dest : ℤ
  pub d_src : ℤ
  pub d_dest : ℤ
  pub enc_type : ℤ
  pub check_type : ℤ
  pub cmd_func : ℤ
  pub cmd_id : ℤ
  pub data_len : ℤ
  pub need_ack : ℤ
  pub is_ack : ℤ
  pub seq : ℤ
  pub product_id : ℤ
  pub version : ℤ
  pub payload_ver : ℤ
  pub time_snap : ℤ
  pub is_rw_cmd : ℤ
  pub is_queue : ℤ
  pub ack_type : ℤ
  pub code : Text
  pub from : Text
  pub module_sn : Text
  pub device_sn : Text

-- The fields of a message that are set, in the order of a range over them, each with its JSON name. The
-- program treats lists and maps alike, and so all kinds of one width and sign.
mutual
  pub data FieldValue (F64 : Type 0) : Type 0 where
    list_or_map : FieldValue F64
    nested : Fields F64 → FieldValue F64
    bool_kind : Bool → FieldValue F64
    float_kind : F64 → FieldValue F64
    int_kind : ℤ → FieldValue F64
    uint_kind : ℕ → FieldValue F64
    enum_kind : ℤ → FieldValue F64
    string_kind : Text → FieldValue F64
    bytes_kind : Bytes → FieldValue F64

  pub data Fields (F64 : Type 0) : Type 0 where
    done : Fields F64
    field : Text → FieldValue F64 → Fields F64 → Fields F64

-- The three messages that pdata may hold.
pub data MessageType : Type 0 where
  property_upload cms_heart_beat_report bms_heart_beat_report : MessageType

abbrev pub CommandKey : Type 0
CommandKey = ℤ × ℤ

-- bmsHeartbeatCommands
abbrev pub bms_heartbeat_commands : List CommandKey
bms_heartbeat_commands =
    (pos 3, pos 1)
    ∷ (pos 3, pos 2)
    ∷ (pos 3, pos 30)
    ∷ (pos 3, pos 50)
    ∷ (pos 32, pos 1)
    ∷ (pos 32, pos 3)
    ∷ (pos 32, pos 50)
    ∷ (pos 32, pos 51)
    ∷ (pos 32, pos 52)
    ∷ (pos 254, pos 24)
    ∷ (pos 254, pos 25)
    ∷ (pos 254, pos 26)
    ∷ (pos 254, pos 27)
    ∷ (pos 254, pos 28)
    ∷ (pos 254, pos 29)
    ∷ (pos 254, pos 30)
    ∷ []

unfoldable pub is_listed : ℤ → ℤ → List CommandKey → Bool
is_listed cmd_func cmd_id [] = false
is_listed cmd_func cmd_id ((f, i) ∷ keys) =
    (int_eq f cmd_func && int_eq i cmd_id) || is_listed cmd_func cmd_id keys

-- newMessageFor; `none` is nil
unfoldable pub new_message_for : ℤ → ℤ → Option MessageType
unfolding is_listed
new_message_for cmd_func cmd_id =
    if int_eq cmd_func (pos 254) && (int_eq cmd_id (pos 21) || int_eq cmd_id (pos 22))
    then some property_upload
    else if int_eq cmd_func (pos 32) && int_eq cmd_id (pos 2)
    then some cms_heart_beat_report
    else if is_listed cmd_func cmd_id bms_heartbeat_commands
    then some bms_heart_beat_report
    else none
