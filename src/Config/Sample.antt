-- ===== src/Config/Sample.antt =====
-- A configuration at which the theorems are tried.
use go_ecoflow_exporter.Base.{
  Text, codes, text_eq, Bool, true, false, Option, none, some, [], ◌∷◌, ◌≡◌, refl, arith,
  if◌then◌else◌,
}
use go_ecoflow_exporter.Base.Int.{wrap, signed, ℤ, pos}
use go_ecoflow_exporter.Base.Dict.{Dict, lookup, insert}
use go_ecoflow_exporter.Name.{metric_prefix_pattern, is_start_rune, all_name_runes}
use go_ecoflow_exporter.Mqtt.Topic.{split}
use go_ecoflow_exporter.Config.{
  Library, in_seconds, str, raw, bool, int, seconds, secret, port, detect_exporter_type, add_pretty,
  add_devices, parse_device_mapping,
}
use go_ecoflow_exporter.Config.Load.{
  Config, loaded, no_rest, load_exporter, load_mqtt, load_rest, read_config, load_config,
}
use go_ecoflow_exporter.Config.Valid.{IsSmall, HoldsSmall, NumbersAreSmall}

-- A library that reads two numbers, and an environment for MQTT.
abbrev pub test_library : Library
test_library = record {
  trim_space = λ s. s;
  to_lower = λ s. s;
  parse_bool = λ s. none;
  atoi = λ s.
      if text_eq s (codes "2112")
      then some (pos 2112)
      else if text_eq s (codes "60")
      then some (pos 60)
      else none;
  read_file = λ s. none;
  unmarshal_names = λ s. none;
}

abbrev pub test_variables : Dict Text
test_variables =
    (codes "ECOFLOW_EMAIL", codes "a@b")
    ∷ (codes "ECOFLOW_PASSWORD", codes "secret")
    ∷ (codes "ECOFLOW_DEVICES", codes "R331,,R601")
    ∷ (codes "MQTT_PING_INTERVAL_SECONDS", codes "60")
    ∷ []

abbrev pub test_env : Text → Option Text
test_env key = lookup key test_variables

abbrev pub test_config : Config
test_config = record {
  metric_prefix = codes "ecoflow";
  exporter_type = codes "mqtt";
  devices = (codes "R331", codes "R331") ∷ (codes "R601", codes "R601") ∷ [];
  port = codes "2112";
  protobuf_debug = false;
  rest = no_rest;
  mqtt = record {
    email = codes "a@b";
    password = codes "secret";
    offline_threshold = pos 300_000_000_000;
    ping_interval = pos 60_000_000_000;
    state_refresh_interval = pos 300_000_000_000;
  };
}

pub test_config_loads : load_config test_library test_env ≡ loaded test_config
unfolding load_config read_config load_exporter load_mqtt load_rest str raw bool int seconds secret
    port detect_exporter_type parse_device_mapping add_pretty add_devices split insert lookup
    text_eq metric_prefix_pattern is_start_rune all_name_runes in_seconds wrap signed
test_config_loads = refl

number-IsSmall :
    (a b : Bool) (i : ℤ)
    → (if a then some (pos 2112) else if b then some (pos 60) else none) ≡ some i
    → IsSmall i
number-IsSmall true b i e = let same : i ≡ pos 2112 = cc in rw (same) (omega arith)
number-IsSmall false true i e = let same : i ≡ pos 60 = cc in rw (same) (omega arith)
number-IsSmall false false i e = absurd (cc)

every_variable : (key : Text) → HoldsSmall test_library test_env key
every_variable key val i held e =
    number-IsSmall (text_eq val (codes "2112")) (text_eq val (codes "60")) i e

pub test_numbers_small : NumbersAreSmall test_library test_env
test_numbers_small =
    (every_variable _, (every_variable _, (every_variable _, (every_variable _, tt))))
