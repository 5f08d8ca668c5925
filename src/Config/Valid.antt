-- ===== src/Config/Valid.antt =====
-- config.go: what a loaded configuration guarantees to the exporter that it names.
use go_ecoflow_exporter.Base.{
  ℕ, ◌*◌, ◌<◌, ◌≤◌, Text, codes, text_eq_iff, Bool, true, false, not, ◌&&◌, ◌||◌, Option, none,
  some, All, List, [], ◌∷◌, ◌++◌, ◌≡◌, ◌≢◌, refl, sym, ap, ◌∙◌, arith, ◌==◌, Bool-cases,
  Option-cases, inl, inr, if◌then◌else◌,
}
use go_ecoflow_exporter.Base.Int.{wrap, signed, ℤ, pos, negsuc}
use go_ecoflow_exporter.Name.{metric_prefix_pattern}
use go_ecoflow_exporter.Mqtt.Status.{second}
use go_ecoflow_exporter.Config.{
  default_offline_threshold_seconds, default_ping_interval_seconds,
  default_state_refresh_interval_seconds, Library, ConfigError, not_positive, RestConfig,
  MqttConfig, is_empty_text, is_positive, in_seconds, raw, read_int, int, seconds,
}
use go_ecoflow_exporter.Config.Load.{
  Config, loaded, is_rest, is_mqtt, has_no_devices, unless, joined, load_rest, load_mqtt,
  load_exporter, read_config, load_config, credentials_required, device_required, handler_required,
  check_mqtt_config,
}

module _ {A : Type 0} where
  nil_left : (xs ys : List A) → xs ++ ys ≡ [] → xs ≡ []
  nil_left [] ys e = refl
  nil_left (x ∷ xs) ys e = absurd (cc)

  nil_right : (xs ys : List A) → xs ++ ys ≡ [] → ys ≡ []
  nil_right [] ys e = e
  nil_right (x ∷ xs) ys e = absurd (cc)

unless_passes : (b : Bool) (err : ConfigError) → unless b err ≡ [] → b ≡ true
unless_passes true err e = refl
unless_passes false err e = absurd (cc)

positive_passes : (b : Bool) (err : ConfigError) → (if b then [] else err ∷ []) ≡ [] → b ≡ true
positive_passes true err e = refl
positive_passes false err e = absurd (cc)

checks_pass :
    (no_email no_password no_devices : Bool) (handlers : ℕ)
    → (not no_email && not no_password) ≡ true
    → not no_devices ≡ true
    → 0 < handlers
    → (if no_email || no_password
        then some credentials_required
        else if no_devices
        then some device_required
        else if handlers == 0
        then some handler_required
        else none)
      ≡ none
checks_pass no_email no_password no_devices handlers h h' some_handler = ground arith

-- The most seconds of which the nanoseconds fit into an int64.
abbrev pub max_seconds : ℕ
max_seconds = 9_223_372_036

abbrev pub IsSmall : ℤ → Type 0
IsSmall (pos n) = n ≤ max_seconds
IsSmall (negsuc n) = Unit

in_seconds_exact : (n : ℕ) → n ≤ max_seconds → in_seconds (pos n) ≡ pos (n * second)
unfolding in_seconds wrap signed
in_seconds_exact n h = ground arith

in_seconds_positive : (s : ℤ) → is_positive s ≡ true → IsSmall s → is_positive (in_seconds s) ≡ true
in_seconds_positive (pos n) h small = rw (in_seconds_exact n small) (ground arith)
in_seconds_positive (negsuc n) h small = absurd (cc)

-- The variables that hold a number of seconds.
abbrev pub seconds_variables : List Text
seconds_variables =
    codes "SCRAPING_INTERVAL"
    ∷ codes "MQTT_DEVICE_OFFLINE_THRESHOLD_SECONDS"
    ∷ codes "MQTT_PING_INTERVAL_SECONDS"
    ∷ codes "MQTT_STATE_REFRESH_INTERVAL_SECONDS"
    ∷ []

module _ (lib : Library) (env : Text → Option Text) where
  -- What the environment holds for a variable, if it reads as a number, is not above 9223372036.
  abbrev pub HoldsSmall : Text → Type 0
  HoldsSmall key =
      (val : Text) (i : ℤ) → raw lib env key ≡ some val → lib.atoi val ≡ some i → IsSmall i

  abbrev pub NumbersAreSmall : Type 0
  NumbersAreSmall = All HoldsSmall seconds_variables

  read_int-IsSmall :
      (key val : Text) (default : ℤ) (o : Option ℤ)
      → HoldsSmall key
      → raw lib env key ≡ some val
      → lib.atoi val ≡ o
      → IsSmall default
      → IsSmall (read_int lib env key default o).0
  read_int-IsSmall key val default none small held e h = h
  read_int-IsSmall key val default (some i) small held e h = small val i held e

  int-IsSmall :
      (key : Text) (default : ℤ)
      → HoldsSmall key
      → IsSmall default
      → IsSmall (int lib env key default).0
  unfolding int
  int-IsSmall key default small h = elim (Option-cases (raw lib env key)) [
    | inl e ↦ rw (IsSmall, e) h
    | inr (val, e) ↦
        rw (IsSmall, e) (read_int-IsSmall key val default (lib.atoi val) small e refl h)
  ]

  seconds_positive :
      (key : Text) (default : ℤ)
      → HoldsSmall key
      → IsSmall default
      → (seconds lib env key default).1 ≡ []
      → is_positive (seconds lib env key default).0 ≡ true
  unfolding seconds
  seconds_positive key default holds h e =
      let (s, errs) = int lib env key default in
      in_seconds_positive s
        (positive_passes (is_positive s) (not_positive key s) (nil_right errs _ e))
        (int-IsSmall key default holds h)

  module _ (small : NumbersAreSmall) where
    load_mqtt_accepted :
        (mqtt : MqttConfig) (cfg : Config) (handlers : ℕ)
        → 0 < handlers
        → (load_mqtt lib env mqtt cfg).1 ≡ []
        → let cfg' = (load_mqtt lib env mqtt cfg).0 in
          check_mqtt_config cfg'.mqtt cfg'.devices handlers ≡ none
    unfolding load_mqtt check_mqtt_config
    load_mqtt_accepted mqtt cfg handlers some_handler e =
        let before_devices = nil_left _ _ e in
        let before_credentials = nil_left _ _ before_devices in
        let before_refresh = nil_left _ _ before_credentials in
        let offline =
          seconds_positive (codes "MQTT_DEVICE_OFFLINE_THRESHOLD_SECONDS")
            default_offline_threshold_seconds small.1.0 (omega arith)
            (nil_left _ _ before_refresh) in
        let ping =
          seconds_positive (codes "MQTT_PING_INTERVAL_SECONDS") default_ping_interval_seconds
            small.1.1.0 (omega arith) (nil_right _ _ before_refresh) in
        let refresh =
          seconds_positive (codes "MQTT_STATE_REFRESH_INTERVAL_SECONDS")
            default_state_refresh_interval_seconds small.1.1.1.0 (omega arith)
            (nil_right _ _ before_credentials) in
        let credentials =
          unless_passes (not (is_empty_text mqtt.email) && not (is_empty_text mqtt.password)) _
            (nil_right _ _ before_devices) in
        let some_device = unless_passes (not (has_no_devices cfg.devices)) _ (nil_right _ _ e) in
        rw (offline, ping, refresh)
          (checks_pass (is_empty_text mqtt.email) (is_empty_text mqtt.password)
            (has_no_devices cfg.devices) handlers credentials some_device some_handler)

pub joined_loaded :
    (c cfg : Config) (errs : List ConfigError)
    → joined c errs ≡ loaded cfg
    → (errs ≡ []) × (c ≡ cfg)
joined_loaded c cfg [] e = (refl, cc)
joined_loaded c cfg (err ∷ errs) e = absurd (cc)

abbrev first_code : Text → ℕ
first_code [] = 0
first_code (c ∷ s) = c

codes_differ : codes "mqtt" ≢ codes "rest"
codes_differ = λ e. let c : ◌≡◌ {A = ℕ} 109 114 = ap first_code e in omega arith

rest_not_mqtt : (t : Text) → is_mqtt t ≡ true → is_rest t ≡ false
rest_not_mqtt t h = elim (Bool-cases (is_rest t)) [
  | inr e ↦ e
  | inl e ↦
      absurd (
        codes_differ
          (sym ((text_eq_iff t (codes "mqtt")).0 h) ∙ (text_eq_iff t (codes "rest")).0 e))
]

module _ (lib : Library) (env : Text → Option Text) where
  load_exporter_type :
      (rest : RestConfig) (mqtt : MqttConfig) (cfg : Config)
      → (load_exporter lib env rest mqtt cfg).0.exporter_type ≡ cfg.exporter_type
  unfolding load_exporter load_rest load_mqtt
  load_exporter_type rest mqtt cfg = ground arith

  load_exporter_accepted :
      (rest : RestConfig) (mqtt : MqttConfig) (cfg : Config) (handlers : ℕ)
      → NumbersAreSmall lib env
      → 0 < handlers
      → is_mqtt (load_exporter lib env rest mqtt cfg).0.exporter_type ≡ true
      → (load_exporter lib env rest mqtt cfg).1 ≡ []
      → let cfg' = (load_exporter lib env rest mqtt cfg).0 in
        check_mqtt_config cfg'.mqtt cfg'.devices handlers ≡ none
  unfolding load_exporter
  load_exporter_accepted rest mqtt cfg handlers small some_handler is e =
      let t : is_mqtt cfg.exporter_type ≡ true =
        ap is_mqtt (sym (load_exporter_type rest mqtt cfg)) ∙ is in
      let not_rest = rest_not_mqtt cfg.exporter_type t in
      let branch : load_exporter lib env rest mqtt cfg ≡ load_mqtt lib env mqtt cfg =
        rw (not_rest, t) refl in
      ap (λ r. check_mqtt_config r.0.mqtt r.0.devices handlers) branch
      ∙ load_mqtt_accepted lib env small mqtt cfg handlers some_handler
          (sym (ap (λ r. r.1) branch) ∙ e)

  load_exporter_prefix :
      (rest : RestConfig) (mqtt : MqttConfig) (cfg : Config)
      → (load_exporter lib env rest mqtt cfg).0.metric_prefix ≡ cfg.metric_prefix
  unfolding load_exporter load_rest load_mqtt
  load_exporter_prefix rest mqtt cfg = ground arith

  load_exporter_known :
      (rest : RestConfig) (mqtt : MqttConfig) (cfg : Config)
      → (load_exporter lib env rest mqtt cfg).1 ≡ []
      → (is_rest cfg.exporter_type || is_mqtt cfg.exporter_type) ≡ true
  unfolding load_exporter
  load_exporter_known rest mqtt cfg e = ground arith

  -- A configuration that loads as one for MQTT is accepted by `NewMqttMetricsExporter` with any number of handlers from
  -- one on. Assumed: no variable holds a number of seconds above 9223372036, the most that an int64 of
  -- nanoseconds can hold.
  pub load_config_accepted :
      (cfg : Config) (handlers : ℕ)
      → NumbersAreSmall lib env
      → 0 < handlers
      → load_config lib env ≡ loaded cfg
      → is_mqtt cfg.exporter_type ≡ true
      → check_mqtt_config cfg.mqtt cfg.devices handlers ≡ none
  unfolding load_config read_config
  load_config_accepted cfg handlers small some_handler e is =
      let (no_errs, same) = joined_loaded (read_config lib env).0 cfg (read_config lib env).1 e in
      ap (λ c. check_mqtt_config c.mqtt c.devices handlers) (sym same)
      ∙ load_exporter_accepted _ _ _ handlers small some_handler
          (ap (λ c. is_mqtt c.exporter_type) same ∙ is) (nil_right _ _ no_errs)

  -- A configuration that loads has a metric prefix that matches the pattern, and its type is "rest" or "mqtt".
  pub load_config_valid :
      (cfg : Config)
      → load_config lib env ≡ loaded cfg
      → (metric_prefix_pattern cfg.metric_prefix ≡ true)
        × ((is_rest cfg.exporter_type || is_mqtt cfg.exporter_type) ≡ true)
  unfolding load_config read_config
  load_config_valid cfg e =
      let (no_errs, same) = joined_loaded (read_config lib env).0 cfg (read_config lib env).1 e in
      let up_to_prefix = nil_left _ _ (nil_left _ _ (nil_left _ _ (nil_left _ _ no_errs))) in
      (
        ap (λ c. metric_prefix_pattern c.metric_prefix) (sym same)
            ∙ ap metric_prefix_pattern (load_exporter_prefix _ _ _)
            ∙ unless_passes _ _ (nil_right _ _ up_to_prefix),
        ap (λ c. is_rest c.exporter_type || is_mqtt c.exporter_type) (sym same)
            ∙ ap (λ t. is_rest t || is_mqtt t) (load_exporter_type _ _ _)
            ∙ load_exporter_known _ _ _ (nil_right _ _ no_errs),
      )
