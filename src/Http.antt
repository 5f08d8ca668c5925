-- ===== src/Http.antt =====
-- http_server.go: the server's health check, and main.go: `runHealthcheck`, which asks it. A check reads the state `S` of the
-- exporter when it is called. The routing and the listener belong to net/http.
pub mod Check
mod Tests
use go_ecoflow_exporter.Base.{
  ℕ, ◌==◌, Text, codes, Bool, Option, none, some, List, [], ◌∷◌, ◌++◌, if◌then◌else◌,
}
use go_ecoflow_exporter.Config.{default_port, Library, str}

-- `health` is nil until SetHealthCheck.
pub record HttpServer (S : Type 0) : Type 0 where
  pub health : Option (S → Option Text)

pub record Response : Type 0 where
  pub status : ℕ
  pub content_type : Text
  pub body : Text

-- What NewHTTPServer returns, by whether the port can be listened on.
pub data ServerResult (S : Type 0) : Type 0 where
  serving : HttpServer S → ServerResult S
  not_listening : Text → ServerResult S

-- What serveHealth writes, by the result of the check.
abbrev pub answer : Option Text → Response
answer none = record {
  status = 200;
  content_type = codes "text/plain; charset=utf-8";
  body = codes "ok" ++ 10 ∷ [];
}
answer (some err) = record {
  status = 503;
  content_type = codes "text/plain; charset=utf-8";
  body = codes "unhealthy: " ++ err ++ 10 ∷ [];
}

module _ {S : Type 0} where
  unfoldable pub new_http_server : (Text → Option Text) → Text → ServerResult S
  new_http_server listen port = elim (listen port) [
    | none ↦ serving (record { health = none })
    | some err ↦ not_listening (codes "cannot listen on port " ++ port ++ codes ": " ++ err)
  ]

  unfoldable pub set_health_check : (S → Option Text) → HttpServer S → HttpServer S
  set_health_check check server = record server { health = some check }

  unfoldable pub serve_health : HttpServer S → S → Response
  serve_health server s = elim server.health [ none ↦ answer none | some check ↦ answer (check s) ]

-- The status of an answer, or the error of the request.
pub data Reply : Type 0 where
  replied : ℕ → Reply
  unreachable : Text → Reply

abbrev pub healthz_url : Text → Text
healthz_url port = codes "http://127.0.0.1:" ++ port ++ codes "/healthz"

abbrev exit_code_of : Reply → ℕ
exit_code_of (unreachable err) = 1
exit_code_of (replied status) = if status == 200 then 0 else 1

-- The exit code of `healthcheck`; `get` is the HTTP client.
unfoldable pub run_healthcheck : Library → (Text → Option Text) → (Text → Reply) → ℕ
run_healthcheck lib env get =
    exit_code_of (get (healthz_url (str lib env (codes "PROMETHEUS_PORT") default_port)))
