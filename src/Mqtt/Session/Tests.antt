-- ===== src/Mqtt/Session/Tests.antt =====
-- The theorems on sessions at concrete actions.
use go_ecoflow_exporter.Base.{
  ℕ, ◌+◌, ◌≤◌, ◌<◌, codes, true, false, none, some, List, [], ◌∷◌, ◌≡◌, ◌≢◌, ◌⊎◌, refl,
}
use go_ecoflow_exporter.Telemetry.{new_telemetry, set_mqtt_connected, mqtt_relogin}
use go_ecoflow_exporter.Mqtt.Session.{
  logging_in, waiting, stopped, Session, Action, logged_in, token_done, relogin_read, pause_over,
  cancel_seen, relogin_requested, new_session, end_session, request_relogin, act, run_session,
  health,
}
use go_ecoflow_exporter.Mqtt.Session.Progress.{
  own_actions, to_return, to_login, run_session-stops, run_session-logs_in,
}
use go_ecoflow_exporter.Mqtt.Session.Counted.{Counts, relogins, run_session-counted}

-- Clients are numbers. A session that is connected.
abbrev connected_session : Session ℕ
connected_session = record {
  phase = waiting;
  pending = false;
  cancelled = false;
  client = some 1;
  logins = 1;
  telemetry = some (new_telemetry (codes "dev"));
}

abbrev relogin_actions : List (Action ℕ)
relogin_actions = relogin_read ∷ pause_over ∷ []

abbrev before_login : Session ℕ
before_login = record {
  phase = logging_in;
  pending = false;
  cancelled = false;
  client = some 1;
  logins = 1;
  telemetry = mqtt_relogin (set_mqtt_connected false (some (new_telemetry (codes "dev"))));
}

reads_request : run_session relogin_actions (request_relogin connected_session) ≡ some before_login
unfolding run_session act request_relogin end_session
reads_request = refl

run_session-logs_in_example :
    (connected_session.logins < before_login.logins)
    ⊎ ((own_actions relogin_actions + to_login before_login.phase
          ≤ to_login connected_session.phase)
        × ((act relogin_read before_login ≢ none)
            ⊎ (act pause_over before_login ≢ none)
            ⊎ (before_login.phase ≡ logging_in)))
run_session-logs_in_example =
    run_session-logs_in relogin_actions connected_session before_login refl (λ e. absurd (cc))
      ((λ e. absurd (cc)), ((λ e. absurd (cc)), tt)) reads_request

abbrev cancelled_session : Session ℕ
cancelled_session = record connected_session { cancelled = true }

abbrev stopped_session : Session ℕ
stopped_session = record cancelled_session {
  phase = stopped;
  telemetry = set_mqtt_connected false (some (new_telemetry (codes "dev")));
}

stops :
    run_session (relogin_requested ∷ cancel_seen ∷ []) cancelled_session
    ≡ some (request_relogin stopped_session)
unfolding run_session act request_relogin end_session
stops = refl

run_session-stops_example :
    (own_actions {C = ℕ} (relogin_requested ∷ cancel_seen ∷ [])
        + to_return (request_relogin stopped_session).phase
      ≤ to_return cancelled_session.phase)
    × (((request_relogin stopped_session).phase ≡ stopped)
        ⊎ (act cancel_seen (request_relogin stopped_session) ≢ none))
run_session-stops_example =
    run_session-stops (relogin_requested ∷ cancel_seen ∷ []) cancelled_session
      (request_relogin stopped_session) refl stops

abbrev first_session : Session ℕ
first_session = record {
  phase = waiting;
  pending = false;
  cancelled = false;
  client = some 7;
  logins = 1;
  telemetry = some (new_telemetry (codes "dev"));
}

connects :
    run_session
      (logged_in 7 ∷ token_done none ∷ [])
      (new_session (some (new_telemetry (codes "dev"))))
    ≡ some first_session
unfolding run_session act new_session
connects = refl

run_session-counted_example :
    Counts first_session.phase (relogins first_session.telemetry) first_session.logins
    × (first_session.logins ≡ 0 → health first_session (λ c. true) ≢ none)
run_session-counted_example =
    run_session-counted (logged_in 7 ∷ token_done none ∷ []) (codes "dev") first_session (λ c. true)
      connects
