-- ===== src/Start/Run.antt =====
-- main.go: `run`, from the configuration to the server, in order.
use go_ecoflow_exporter.Base.{
  Text, codes, Bool, true, false, Option, none, some, List, [], ◌∷◌, ◌++◌, ◌≡◌, inl, inr, ap, ◌∙◌,
  arith,
}
use go_ecoflow_exporter.Name.{Unicode}
use go_ecoflow_exporter.Telemetry.{new_telemetry}
use go_ecoflow_exporter.Update.{Floats}
use go_ecoflow_exporter.Prometheus.{PrometheusExporter, new_prometheus_exporter, handle}
use go_ecoflow_exporter.Config.{Library, ConfigError}
use go_ecoflow_exporter.Config.Load.{Config, LoadResult, loaded, failed, load_config, ExporterError}
use go_ecoflow_exporter.Config.Valid.{NumbersAreSmall}
use go_ecoflow_exporter.Http.{
  HttpServer, ServerResult, serving, not_listening, new_http_server, set_health_check,
}
use go_ecoflow_exporter.Start.{Created, mqtt_created, rest_created, not_created, create_exporter}
use go_ecoflow_exporter.Start.Creation.{create_exporter-load_config}

-- How far `run` comes before the exporter's Run is called. A refusal is the error that it returns.
pub data Started (F64 F32 S : Type 0) : Type 0 where
  not_configured : ConfigError → List ConfigError → Started F64 F32 S
  not_registered : Text → Started F64 F32 S
  no_exporter : ExporterError → Started F64 F32 S
  no_server : Text → Started F64 F32 S
  running : Config → Created F64 F32 (PrometheusExporter F64) → HttpServer S → Started F64 F32 S

-- `register` is the registration of the Prometheus exporter, `health` is Health of the created exporter, as a function of
-- the state that it reads, and `version` that of the build.
module _ {F64 F32 S : Type 0} (fl : Floats F64 F32) (u : Unicode) (version : Text)
    (register listen : Text → Option Text)
    (health : Created F64 F32 (PrometheusExporter F64) → S → Option Text) where
  abbrev with_server :
      Config → Created F64 F32 (PrometheusExporter F64) → ServerResult S → Started F64 F32 S
  with_server cfg e (serving server) = running cfg e (set_health_check (health e) server)
  with_server cfg e (not_listening err) = no_server err

  abbrev with_exporter : Config → Created F64 F32 (PrometheusExporter F64) → Started F64 F32 S
  with_exporter cfg (not_created err) = no_exporter err
  with_exporter cfg (mqtt_created m) =
      with_server cfg (mqtt_created m) (new_http_server listen cfg.port)
  with_exporter cfg (rest_created e) =
      with_server cfg (rest_created e) (new_http_server listen cfg.port)

  abbrev pub created_for : Config → Created F64 F32 (PrometheusExporter F64)
  created_for cfg =
      create_exporter cfg (some (new_telemetry version)) (handle fl u ∷ [])
        (new_prometheus_exporter F64 cfg.metric_prefix)

  abbrev with_registry : Config → Option Text → Started F64 F32 S
  with_registry cfg (some err) =
      not_registered (codes "unable to create prometheus exporter: " ++ err)
  with_registry cfg none = with_exporter cfg (created_for cfg)

  abbrev with_config : LoadResult → Started F64 F32 S
  with_config (failed err errs) = not_configured err errs
  with_config (loaded cfg) = with_registry cfg (register cfg.metric_prefix)

  unfoldable pub start_run : Library → (Text → Option Text) → Started F64 F32 S
  start_run lib env = with_config (load_config lib env)

  -- The server with the exporter's health check.
  abbrev pub checked_server : Created F64 F32 (PrometheusExporter F64) → HttpServer S
  checked_server e = set_health_check (health e) (record { health = none })

  abbrev is_created : Created F64 F32 (PrometheusExporter F64) → Bool
  is_created (not_created err) = false
  is_created e = true

  listening :
      (port : Text)
      → listen port ≡ none
      → new_http_server {S = S} listen port ≡ serving (record { health = none })
  unfolding new_http_server
  listening port listens = ground arith

  served :
      (cfg : Config) (e : Created F64 F32 (PrometheusExporter F64))
      → is_created e ≡ true
      → listen cfg.port ≡ none
      → with_exporter cfg e ≡ running cfg e (checked_server e)
  served cfg (mqtt_created m) is listens =
      ap (with_server cfg (mqtt_created m)) (listening cfg.port listens)
  served cfg (rest_created e) is listens =
      ap (with_server cfg (rest_created e)) (listening cfg.port listens)
  served cfg (not_created err) is listens = absurd (cc)

  -- A configuration that loads starts the program, unless the registry or the port refuses: then an exporter runs, the
  -- health check of the server is the exporter's, and no other error is possible. Assumed: no variable holds
  -- a number of seconds above 9223372036.
  pub start_run-load_config :
      (lib : Library) (env : Text → Option Text) (cfg : Config)
      → NumbersAreSmall lib env
      → load_config lib env ≡ loaded cfg
      → register cfg.metric_prefix ≡ none
      → listen cfg.port ≡ none
      → start_run lib env ≡ running cfg (created_for cfg) (checked_server (created_for cfg))
  unfolding start_run
  start_run-load_config lib env cfg small loads registered listens =
      let kind =
        (create_exporter-load_config lib env cfg (some (new_telemetry version)) (handle fl u) []
          (new_prometheus_exporter F64 cfg.metric_prefix) small loads).1 in
      let created : is_created (created_for cfg) ≡ true = elim kind [
        | inl (is, e) ↦ ap is_created e
        | inr (is, e) ↦ ap is_created e
      ] in
      ap with_config loads
      ∙ ap (with_registry cfg) registered
      ∙ served cfg (created_for cfg) created listens
