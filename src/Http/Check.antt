-- ===== src/Http/Check.antt =====
-- http_server.go, main.go and config.go together: the health check of the container.
use go_ecoflow_exporter.Base.{Text, codes, Option, none, ◌≡◌, ◌↔◌, ap, sym, ◌∙◌, arith}
use go_ecoflow_exporter.Config.{default_port, Library, RestConfig, MqttConfig, str, port}
use go_ecoflow_exporter.Config.Load.{
  Config, loaded, load_config, read_config, load_exporter, load_rest, load_mqtt,
}
use go_ecoflow_exporter.Config.Valid.{joined_loaded}
use go_ecoflow_exporter.Http.{
  HttpServer, Reply, replied, set_health_check, serve_health, healthz_url, run_healthcheck,
}

module _ (lib : Library) (env : Text → Option Text) where
  load_exporter_port :
      (rest : RestConfig) (mqtt : MqttConfig) (cfg : Config)
      → (load_exporter lib env rest mqtt cfg).0.port ≡ cfg.port
  unfolding load_exporter load_rest load_mqtt
  load_exporter_port rest mqtt cfg = ground arith

  load_config_port :
      (cfg : Config)
      → load_config lib env ≡ loaded cfg
      → cfg.port ≡ str lib env (codes "PROMETHEUS_PORT") default_port
  unfolding load_config read_config port
  load_config_port cfg e =
      let (no_errs, same) = joined_loaded (read_config lib env).0 cfg (read_config lib env).1 e in
      ap (λ c. c.port) (sym same) ∙ load_exporter_port _ _ _

  -- Where the server that was started with the loaded configuration answers on its port, and its check is the exporter's,
  -- the container's health check, run in the same environment, asks there, and exits with 0 exactly if the exporter is
  -- healthy then.
  pub run_healthcheck-serve_health :
      (S : Type 0) (cfg : Config) (check : S → Option Text) (server : HttpServer S) (s : S)
      (get : Text → Reply)
      → load_config lib env ≡ loaded cfg
      → get (healthz_url cfg.port) ≡ replied (serve_health (set_health_check check server) s).status
      → (run_healthcheck lib env get ≡ 0) ↔ (check s ≡ none)
  unfolding run_healthcheck serve_health set_health_check
  run_healthcheck-serve_health S cfg check server s get e answers =
      let asked : get (healthz_url (str lib env (codes "PROMETHEUS_PORT") default_port))
          ≡ replied (serve_health (set_health_check check server) s).status =
        ap (λ p. get (healthz_url p)) (sym (load_config_port cfg e)) ∙ answers in
      rw (asked) (ground arith)
