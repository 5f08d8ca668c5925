-- ===== src/Config/Load.antt =====
-- config.go: `LoadConfig`, and mqtt_exporter.go: what `NewMqttMetricsExporter` asks of a configuration.
use go_ecoflow_exporter.Base.{
  ℕ, Text, codes, text_eq, Bool, true, false, not, ◌&&◌, ◌||◌, Option, none, some, List, [], ◌∷◌,
  ◌++◌, ◌==◌, if◌then◌else◌,
}
use go_ecoflow_exporter.Base.Int.{pos}
use go_ecoflow_exporter.Base.Dict.{Dict}
use go_ecoflow_exporter.Name.{metric_prefix_pattern}
use go_ecoflow_exporter.Config.{
  default_metric_prefix, default_port, default_rest_interval_seconds,
  default_offline_threshold_seconds, default_ping_interval_seconds,
  default_state_refresh_interval_seconds, Library, ConfigError, bad_prefix, unparsed_devices,
  access_key_mandatory, email_password_mandatory, devices_mandatory, no_credentials, unknown_type,
  RestConfig, MqttConfig, is_empty_text, is_positive, str, bool, seconds, secret, port,
  detect_exporter_type, parse_device_mapping,
}

pub record Config : Type 0 where
  pub metric_prefix : Text
  pub exporter_type : Text
  pub devices : Dict Text
  pub port : Text
  pub protobuf_debug : Bool
  pub rest : RestConfig
  pub mqtt : MqttConfig

pub data LoadResult : Type 0 where
  loaded : Config → LoadResult
  failed : ConfigError → List ConfigError → LoadResult

abbrev pub is_rest : Text → Bool
is_rest t = text_eq t (codes "rest")

abbrev pub is_mqtt : Text → Bool
is_mqtt t = text_eq t (codes "mqtt")

abbrev pub has_no_devices : Dict Text → Bool
has_no_devices [] = true
has_no_devices (d ∷ ds) = false

abbrev pub unless : Bool → ConfigError → List ConfigError
unless true err = []
unless false err = err ∷ []

-- errors.Join and the return.
abbrev pub joined : Config → List ConfigError → LoadResult
joined cfg [] = loaded cfg
joined cfg (err ∷ errs) = failed err errs

abbrev no_interval : RestConfig → RestConfig
no_interval rest = record rest { interval = pos 0 }

abbrev pub no_rest : RestConfig
no_rest = record { access_key = []; secret_key = []; interval = pos 0 }

abbrev pub no_mqtt : MqttConfig
no_mqtt = record {
  email = [];
  password = [];
  offline_threshold = pos 0;
  ping_interval = pos 0;
  state_refresh_interval = pos 0;
}

module _ (lib : Library) (env : Text → Option Text) where
  -- The case "rest" of the switch.
  unfoldable pub load_rest : RestConfig → Config → Config × List ConfigError
  load_rest rest cfg =
      let (interval, errs) =
        seconds lib env (codes "SCRAPING_INTERVAL") default_rest_interval_seconds in
      (
        record cfg { rest = record rest { interval = interval } },
        errs
            ++ unless (not (is_empty_text rest.access_key) && not (is_empty_text rest.secret_key))
                access_key_mandatory,
      )

  -- The case "mqtt" of the switch.
  unfoldable pub load_mqtt : MqttConfig → Config → Config × List ConfigError
  load_mqtt mqtt cfg =
      let (offline, errs) =
        seconds lib env (codes "MQTT_DEVICE_OFFLINE_THRESHOLD_SECONDS")
          default_offline_threshold_seconds in
      let (ping, errs') =
        seconds lib env (codes "MQTT_PING_INTERVAL_SECONDS") default_ping_interval_seconds in
      let (refresh, errs'') =
        seconds lib env (codes "MQTT_STATE_REFRESH_INTERVAL_SECONDS")
          default_state_refresh_interval_seconds in
      (
        record cfg {
          mqtt = record mqtt {
            offline_threshold = offline;
            ping_interval = ping;
            state_refresh_interval = refresh;
          };
        },
        errs
            ++ errs'
            ++ errs''
            ++ unless (not (is_empty_text mqtt.email) && not (is_empty_text mqtt.password))
                email_password_mandatory
            ++ unless (not (has_no_devices cfg.devices)) devices_mandatory,
      )

  -- The switch on the exporter's type.
  unfoldable pub load_exporter : RestConfig → MqttConfig → Config → Config × List ConfigError
  load_exporter rest mqtt cfg =
      if is_rest cfg.exporter_type
      then load_rest rest cfg
      else if is_mqtt cfg.exporter_type
      then load_mqtt mqtt cfg
      else if is_empty_text cfg.exporter_type
      then (cfg, no_credentials ∷ [])
      else (cfg, unknown_type cfg.exporter_type ∷ [])

  abbrev devices_or_nil : Option (Dict Text) → Dict Text × List ConfigError
  devices_or_nil none = ([], unparsed_devices ∷ [])
  devices_or_nil (some devices) = (devices, [])

  -- The configuration and all errors, in order.
  unfoldable pub read_config : Config × List ConfigError
  read_config =
      let prefix = str lib env (codes "METRIC_PREFIX") default_metric_prefix in
      let (the_port, port_errs) = port lib env (codes "PROMETHEUS_PORT") default_port in
      let (debug, debug_errs) = bool lib env (codes "PROTOBUF_DEBUG") in
      let (devices, device_errs) = devices_or_nil (
        parse_device_mapping lib (str lib env (codes "ECOFLOW_DEVICES_PRETTY_NAMES") [])
          (str lib env (codes "ECOFLOW_DEVICES") [])) in
      let (secret_key, key_errs) = secret lib env (codes "ECOFLOW_SECRET_KEY") in
      let (password, password_errs) = secret lib env (codes "ECOFLOW_PASSWORD") in
      let rest : RestConfig = record no_rest {
        access_key = str lib env (codes "ECOFLOW_ACCESS_KEY") [];
        secret_key = secret_key;
      } in
      let mqtt : MqttConfig = record no_mqtt {
        email = str lib env (codes "ECOFLOW_EMAIL") [];
        password = password;
      } in
      let asked = lib.to_lower (str lib env (codes "EXPORTER_TYPE") []) in
      let exporter_type = if is_empty_text asked then detect_exporter_type rest mqtt else asked in
      let (cfg, errs) = load_exporter rest mqtt (record {
        metric_prefix = prefix;
        exporter_type = exporter_type;
        devices = devices;
        port = the_port;
        protobuf_debug = debug;
        rest = no_rest;
        mqtt = no_mqtt;
      }) in
      (
        cfg,
        port_errs
            ++ debug_errs
            ++ unless (metric_prefix_pattern prefix) bad_prefix
            ++ device_errs
            ++ key_errs
            ++ password_errs
            ++ errs,
      )

  unfoldable pub load_config : LoadResult
  load_config = joined read_config.0 read_config.1

-- NewMqttMetricsExporter's checks; `none` is no error. The handlers are the Prometheus exporter alone.
pub data ExporterError : Type 0 where
  credentials_required device_required handler_required threshold_not_positive ping_not_positive
        refresh_not_positive :
      ExporterError

unfoldable pub check_mqtt_config : MqttConfig → Dict Text → ℕ → Option ExporterError
check_mqtt_config cfg devices handlers =
    if is_empty_text cfg.email || is_empty_text cfg.password
    then some credentials_required
    else if has_no_devices devices
    then some device_required
    else if handlers == 0
    then some handler_required
    else if not (is_positive cfg.offline_threshold)
    then some threshold_not_positive
    else if not (is_positive cfg.ping_interval)
    then some ping_not_positive
    else if not (is_positive cfg.state_refresh_interval)
    then some refresh_not_positive
    else none
