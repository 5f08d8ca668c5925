-- ===== src/Mqtt/Session/Counted.antt =====
-- mqtt_exporter.go: what the telemetry and `Health` say of the sessions.
use go_ecoflow_exporter.Base.{
  ℕ, ◌+◌, ◌≤◌, Text, Bool, Option, none, some, List, [], ◌∷◌, ◌≡◌, ◌≢◌, ◌↔◌, arith,
}
use go_ecoflow_exporter.Telemetry.{Telemetry, new_telemetry, set_mqtt_connected, mqtt_relogin}
use go_ecoflow_exporter.Mqtt.Session.{
  Phase, logging_in, connecting, waiting, pausing, stopped, Session, Action, new_session,
  end_session, request_relogin, act, run_session, health,
}
use go_ecoflow_exporter.Mqtt.Session.Progress.{run_session_first}

abbrev pub relogins : Option Telemetry → ℕ
relogins none = 0
relogins (some t) = t.mqtt_relogins

-- What the logins have, by phase, over the relogins that were counted.
abbrev pub Counts : Phase → ℕ → ℕ → Type 0
Counts logging_in counted logins = logins ≡ counted
Counts pausing counted logins = logins ≡ counted
Counts connecting counted logins = logins ≡ counted + 1
Counts waiting counted logins = logins ≡ counted + 1
Counts stopped counted logins = (counted ≤ logins) × (logins ≤ counted + 1)

module _ {C : Type 0} where
  abbrev IsCounted : Session C → Type 0
  IsCounted s =
      (s.telemetry ≢ none)
      × Counts s.phase (relogins s.telemetry) s.logins
      × ((s.logins ≡ 0) ↔ (s.client ≡ none))

  act-IsCounted : (a : Action C) (s s' : Session C) → IsCounted s → act a s ≡ some s' → IsCounted s'
  unfolding act end_session request_relogin set_mqtt_connected mqtt_relogin
  act-IsCounted a s s' h e = ground arith

  run_from :
      (actions : List (Action C)) (s s' : Session C)
      → IsCounted s
      → run_session actions s ≡ some s'
      → IsCounted s'
  unfolding run_session
  run_from [] s s' h e = let same : s ≡ s' = cc in rw (IsCounted, ← same) h
  run_from (a ∷ rest) s s' h e =
      let (next, went, runs) = run_session_first a rest s s' e in
      run_from rest next s' (act-IsCounted a s next h went) runs

  new-IsCounted : (version : Text) → IsCounted (new_session (some (new_telemetry version)))
  unfolding new_session new_telemetry
  new-IsCounted version = ground arith

  no_client : (s : Session C) (is_open : C → Bool) → s.client ≡ none → health s is_open ≢ none
  unfolding health
  no_client s is_open e = ground arith

  -- After any actions from the start: between two sessions as many relogins are counted as logins were made, while a
  -- session is open one fewer, and after the return of `Run` so many or one fewer; and the health check fails as long
  -- as there was no login.
  pub run_session-counted :
      (actions : List (Action C)) (version : Text) (s : Session C) (is_open : C → Bool)
      → run_session actions (new_session (some (new_telemetry version))) ≡ some s
      → Counts s.phase (relogins s.telemetry) s.logins × (s.logins ≡ 0 → health s is_open ≢ none)
  run_session-counted actions version s is_open e =
      let (told, counts, client) = run_from actions _ s (new-IsCounted version) e in
      (counts, λ none_yet. no_client s is_open (client.0 none_yet))
