-- ===== src/Http/Tests.antt =====
-- The theorem on the health check at concrete values.
use go_ecoflow_exporter.Base.{
  ℕ, Text, codes, text_eq, none, some, Option, ◌≡◌, ◌↔◌, refl, if◌then◌else◌,
}
use go_ecoflow_exporter.Config.Sample.{test_library, test_env, test_config, test_config_loads}
use go_ecoflow_exporter.Http.{
  HttpServer, Reply, replied, unreachable, set_health_check, serve_health, healthz_url,
  run_healthcheck,
}
use go_ecoflow_exporter.Http.Check.{run_healthcheck-serve_health}

abbrev new_server : HttpServer ℕ
new_server = record { health = none }

-- An exporter that was never healthy.
abbrev unhealthy : ℕ → Option Text
unhealthy s = some (codes "not logged in to EcoFlow yet")

abbrev local_get : Text → Reply
local_get url =
    if text_eq url (healthz_url test_config.port)
    then replied (serve_health (set_health_check unhealthy new_server) 0).status
    else unreachable (codes "connection refused")

reaches :
    local_get (healthz_url test_config.port)
    ≡ replied (serve_health (set_health_check unhealthy new_server) 0).status
unfolding text_eq
reaches = refl

run_healthcheck-serve_health_example :
    (run_healthcheck test_library test_env local_get ≡ 0) ↔ (unhealthy 0 ≡ none)
run_healthcheck-serve_health_example =
    run_healthcheck-serve_health test_library test_env ℕ test_config unhealthy new_server 0
      local_get test_config_loads reaches
