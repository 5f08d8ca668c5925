-- ===== src/Config/Log.antt =====
-- config.go: `LogValue`, what the log says of the configuration, and `setupLogger`.
use go_ecoflow_exporter.Base.{
  Text, codes, text_eq, Bool, true, false, Option, none, some, List, [], ◌∷◌, ◌++◌, ◌≡◌, refl,
  if◌then◌else◌,
}
use go_ecoflow_exporter.Base.Int.{ℤ}
use go_ecoflow_exporter.Base.Dict.{Dict}
use go_ecoflow_exporter.Config.{Library, raw}
use go_ecoflow_exporter.Config.Load.{Config, is_rest, is_mqtt}

pub data LogField : Type 0 where
  text : Text → LogField
  texts : List Text → LogField
  duration : ℤ → LogField
  boolean : Bool → LogField

abbrev device_texts : Dict Text → List Text
device_texts [] = []
device_texts ((sn, name) ∷ devices) = (sn ++ b'=' ∷ name) ∷ device_texts devices

-- The attributes of the switch on the type.
abbrev type_attrs : Config → Dict LogField
type_attrs cfg =
    if is_rest cfg.exporter_type
    then (codes "interval", duration cfg.rest.interval) ∷ []
    else if is_mqtt cfg.exporter_type
    then (codes "offline_threshold", duration cfg.mqtt.offline_threshold)
      ∷ (codes "ping_interval", duration cfg.mqtt.ping_interval)
      ∷ (codes "state_refresh_interval", duration cfg.mqtt.state_refresh_interval)
      ∷ (codes "protobuf_debug", boolean cfg.protobuf_debug)
      ∷ []
    else []

-- `sort` is slices.Sort.
unfoldable pub log_value : (List Text → List Text) → Config → Dict LogField
log_value sort cfg =
    (codes "exporter_type", text cfg.exporter_type)
    ∷ (codes "metric_prefix", text cfg.metric_prefix)
    ∷ (codes "port", text cfg.port)
    ∷ (codes "devices", texts (sort (device_texts cfg.devices)))
    ∷ type_attrs cfg

-- What setupLogger sets: the level, whether the log is written as JSON, and whether a warning about each is logged.
-- `level` is Level.UnmarshalText, with the level `info` at its error.
pub record Logger (L : Type 0) : Type 0 where
  pub level : L
  pub json : Bool
  pub level_warned : Bool
  pub format_warned : Bool

module _ {L : Type 0} (lib : Library) (info : L) (parse_level : Text → Option L) where
  abbrev level_of : Option Text → L × Bool
  level_of none = (info, false)
  level_of (some val) = elim (parse_level val) [ some l ↦ (l, false) | none ↦ (info, true) ]

  abbrev format_of : Text → Bool × Bool
  format_of format =
      if text_eq format (codes "json")
      then (true, false)
      else if text_eq format []
      then (false, false)
      else if text_eq format (codes "text")
      then (false, false)
      else (false, true)

  abbrev or_empty : Option Text → Text
  or_empty none = []
  or_empty (some val) = val

  unfoldable pub setup_logger : (Text → Option Text) → Logger L
  setup_logger env =
      let (level, level_warned) = level_of (raw lib env (codes "LOG_LEVEL")) in
      let (json, format_warned) =
        format_of (lib.to_lower (or_empty (raw lib env (codes "LOG_FORMAT")))) in
      record {
        level = level;
        json = json;
        level_warned = level_warned;
        format_warned = format_warned;
      }

-- The configuration with other credentials.
abbrev pub with_credentials : Text → Text → Text → Text → Config → Config
with_credentials access_key secret_key email password cfg = record cfg {
  rest = record cfg.rest { access_key = access_key; secret_key = secret_key };
  mqtt = record cfg.mqtt { email = email; password = password };
}

-- The log shows nothing of the credentials: what it says of a configuration is the same whatever the access key, the
-- secret key, the email address and the password are.
pub log_value-with_credentials :
    (sort : List Text → List Text) (access_key secret_key email password : Text) (cfg : Config)
    → log_value sort (with_credentials access_key secret_key email password cfg)
      ≡ log_value sort cfg
unfolding log_value
log_value-with_credentials sort access_key secret_key email password cfg = refl
