-- ===== src/Config.antt =====
-- config.go: the configuration from environment variables.
pub mod Load
pub mod Valid
pub mod Devices
pub mod Log
pub mod Sample
mod Tests
use go_ecoflow_exporter.Base.{
  ℕ, ◌+◌, ◌-◌, ◌*◌, ◌%◌, ◌^◌, Text, codes, text_eq, Bool, true, false, not, ◌&&◌, ◌||◌, Option,
  none, some, List, [], ◌∷◌, ◌++◌, ltb, leb, if◌then◌else◌,
}
use go_ecoflow_exporter.Base.Int.{ℤ, pos, negsuc, wrap}
use go_ecoflow_exporter.Base.Dict.{Dict, insert, has}
use go_ecoflow_exporter.Mqtt.Status.{second}
use go_ecoflow_exporter.Mqtt.Topic.{split}

abbrev pub default_metric_prefix : Text
default_metric_prefix = codes "ecoflow"

abbrev pub default_port : Text
default_port = codes "2112"

abbrev pub default_rest_interval_seconds : ℤ
default_rest_interval_seconds = pos 30

abbrev pub default_offline_threshold_seconds : ℤ
default_offline_threshold_seconds = pos 300

abbrev pub default_ping_interval_seconds : ℤ
default_ping_interval_seconds = pos 20

abbrev pub default_state_refresh_interval_seconds : ℤ
default_state_refresh_interval_seconds = pos 300

-- Functions of Go's standard library; `none` is an error.
pub record Library : Type 0 where
  pub trim_space : Text → Text
  pub to_lower : Text → Text
  pub parse_bool : Text → Option Bool
  pub atoi : Text → Option ℤ
  pub read_file : Text → Option Text
  pub unmarshal_names : Text → Option (Dict Text)

pub data ConfigError : Type 0 where
  not_a_bool not_a_number not_readable not_a_port : Text → ConfigError
  not_positive : Text → ℤ → ConfigError
  bad_prefix unparsed_devices access_key_mandatory email_password_mandatory : ConfigError
  devices_mandatory no_credentials : ConfigError
  unknown_type : Text → ConfigError

pub record RestConfig : Type 0 where
  pub access_key : Text
  pub secret_key : Text
  pub interval : ℤ

pub record MqttConfig : Type 0 where
  pub email : Text
  pub password : Text
  pub offline_threshold : ℤ
  pub ping_interval : ℤ
  pub state_refresh_interval : ℤ

abbrev pub is_empty_text : Text → Bool
is_empty_text [] = true
is_empty_text (c ∷ s) = false

abbrev nonempty : Text → Option Text
nonempty [] = none
nonempty (c ∷ s) = some (c ∷ s)

-- time.Duration(s) * time.Second
unfoldable pub in_seconds : ℤ → ℤ
in_seconds (pos n) = wrap (pos (n * second))
in_seconds (negsuc n) = wrap (negsuc ((n + 1) * second - 1))

abbrev pub is_positive : ℤ → Bool
is_positive (pos n) = ltb 0 n
is_positive (negsuc n) = false

abbrev is_port : Option ℤ → Bool
is_port none = false
is_port (some (negsuc n)) = false
is_port (some (pos n)) = leb 1 n && leb n 65535

-- The readers of `env`: a value, and the errors they append.
module _ (lib : Library) (lookup : Text → Option Text) where
  abbrev trimmed : Option Text → Option Text
  trimmed none = none
  trimmed (some val) = nonempty (lib.trim_space val)

  unfoldable pub raw : Text → Option Text
  raw key = trimmed (lookup key)

  unfoldable pub str : Text → Text → Text
  str key default = elim (raw key) [ none ↦ default | some val ↦ val ]

  abbrev read_bool : Text → Option Bool → Bool × List ConfigError
  read_bool key none = (false, not_a_bool key ∷ [])
  read_bool key (some b) = (b, [])

  unfoldable pub bool : Text → Bool × List ConfigError
  bool key = elim (raw key) [ none ↦ (false, []) | some val ↦ read_bool key (lib.parse_bool val) ]

  abbrev pub read_int : Text → ℤ → Option ℤ → ℤ × List ConfigError
  read_int key default none = (default, not_a_number key ∷ [])
  read_int key default (some i) = (i, [])

  unfoldable pub int : Text → ℤ → ℤ × List ConfigError
  int key default = elim (raw key) [
    | none ↦ (default, [])
    | some val ↦ read_int key default (lib.atoi val)
  ]

  unfoldable pub seconds : Text → ℤ → ℤ × List ConfigError
  seconds key default =
      let (s, errs) = int key default in
      (in_seconds s, errs ++ (if is_positive s then [] else not_positive key s ∷ []))

  abbrev read_secret : Text → Option Text → Text × List ConfigError
  read_secret key none = ([], not_readable key ∷ [])
  read_secret key (some contents) = (lib.trim_space contents, [])

  unfoldable pub secret : Text → Text × List ConfigError
  secret key = elim (raw key) [
    | some val ↦ (val, [])
    | none ↦ elim (raw (key ++ codes "_FILE")) [
      | none ↦ ([], [])
      | some path ↦ read_secret key (lib.read_file path)
    ]
  ]

  unfoldable pub port : Text → Text → Text × List ConfigError
  port key default =
      let val = str key default in (val, if is_port (lib.atoi val) then [] else not_a_port key ∷ [])

unfoldable pub detect_exporter_type : RestConfig → MqttConfig → Text
detect_exporter_type rest mqtt =
    if not (is_empty_text rest.access_key) || not (is_empty_text rest.secret_key)
    then codes "rest"
    else if not (is_empty_text mqtt.email) || not (is_empty_text mqtt.password)
    then codes "mqtt"
    else []

-- The two loops of `parseDeviceMapping`.
module _ (lib : Library) where
  abbrev pub add_named : Text → Text → Dict Text → Dict Text
  add_named [] name mapping = mapping
  add_named (c ∷ sn) name mapping = insert (c ∷ sn) name mapping

  unfoldable pub add_pretty : Dict Text → Dict Text → Dict Text
  add_pretty [] mapping = mapping
  add_pretty ((sn, name) ∷ parsed) mapping =
      add_pretty parsed (add_named (lib.trim_space sn) name mapping)

  abbrev pub add_plain : Text → Dict Text → Dict Text
  add_plain [] mapping = mapping
  add_plain (c ∷ sn) mapping =
      if has (c ∷ sn) mapping then mapping else insert (c ∷ sn) (c ∷ sn) mapping

  unfoldable pub add_devices : List Text → Dict Text → Dict Text
  add_devices [] mapping = mapping
  add_devices (sn ∷ parts) mapping = add_devices parts (add_plain (lib.trim_space sn) mapping)

  abbrev pub parsed_names : Text → Option (Dict Text)
  parsed_names [] = some []
  parsed_names (c ∷ s) = lib.unmarshal_names (c ∷ s)

  abbrev pub mapping_of : List Text → Option (Dict Text) → Option (Dict Text)
  mapping_of devices none = none
  mapping_of devices (some parsed) = some (add_devices devices (add_pretty parsed []))

  unfoldable pub parse_device_mapping : Text → Text → Option (Dict Text)
  parse_device_mapping pretty_names devices =
      mapping_of (split b',' devices) (parsed_names pretty_names)
