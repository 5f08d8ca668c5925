-- ===== src/Mqtt/Session.antt =====
-- mqtt_exporter.go: the sessions of `Run` and `runSession`, between the monitor, which may ask for a login, and the end of
-- the context. The goroutine of `Run` waits in five places, its phases; each action lets one goroutine go on to its next
-- wait. Where several actions are possible, Go's select may take any of them. The order of all actions is given as a list.
pub mod Progress
pub mod Counted
mod Tests
use go_ecoflow_exporter.Base.{
  ℕ, ◌+◌, Text, codes, Bool, true, false, Option, none, some, List, [], ◌∷◌, if◌then◌else◌,
}
use go_ecoflow_exporter.Telemetry.{Telemetry, set_mqtt_connected, mqtt_relogin}

-- In `retryWithBackoff` of the login; in the first select of `runSession`, for the connection; in the second one; in the
-- select of `Run` between two sessions; and behind the return of `Run`.
pub data Phase : Type 0 where
  logging_in connecting waiting pausing stopped : Phase

-- The relogin channel holds at most one request, `pending`. `client` is nil before the first login.
pub record Session (C : Type 0) : Type 0 where
  pub phase : Phase
  pub pending : Bool
  pub cancelled : Bool
  pub client : Option C
  pub logins : ℕ
  pub telemetry : Option Telemetry

unfoldable pub new_session : {C : Type 0} → Option Telemetry → Session C
new_session telemetry = record {
  phase = logging_in;
  pending = false;
  cancelled = false;
  client = none;
  logins = 0;
  telemetry = telemetry;
}

-- What lets `Run` go on: the login succeeds, with a client; the token of the connection completes, maybe with an error;
-- a request is read from the channel; the time between two sessions is over; the context's end is noticed. And what
-- other goroutines do: the monitor's request, and the context's end.
pub data Action (C : Type 0) : Type 0 where
  logged_in : C → Action C
  token_done : Option Text → Action C
  relogin_read pause_over cancel_seen : Action C
  relogin_requested context_cancelled : Action C

module _ {C : Type 0} where
  -- The end of runSession, with its deferred function, and what Run does behind it.
  unfoldable pub end_session : Session C → Session C
  end_session s =
      let telemetry = set_mqtt_connected false s.telemetry in
      if s.cancelled
      then record s { phase = stopped; telemetry = telemetry }
      else record s { phase = pausing; telemetry = mqtt_relogin telemetry }

  -- requestRelogin
  unfoldable pub request_relogin : Session C → Session C
  request_relogin s = record s { pending = true }

  abbrev read_relogin : Session C → Option (Session C)
  read_relogin s = if s.pending then some (end_session (record s { pending = false })) else none

  abbrev see_cancel : Session C → Session C → Option (Session C)
  see_cancel s next = if s.cancelled then some next else none

  -- An action in a phase, `none` where it is not possible.
  abbrev pub act_in : Phase → Action C → Session C → Option (Session C)
  act_in phase relogin_requested s = some (request_relogin s)
  act_in phase context_cancelled s = some (record s { cancelled = true })
  act_in logging_in (logged_in c) s =
      some (record s { phase = connecting; client = some c; logins = s.logins + 1 })
  act_in logging_in cancel_seen s = see_cancel s (record s { phase = stopped })
  act_in connecting (token_done none) s = some (record s { phase = waiting })
  act_in connecting (token_done (some err)) s = some (end_session s)
  act_in connecting relogin_read s = read_relogin s
  act_in connecting cancel_seen s = see_cancel s (end_session s)
  act_in waiting relogin_read s = read_relogin s
  act_in waiting cancel_seen s = see_cancel s (end_session s)
  act_in pausing pause_over s = some (record s { phase = logging_in })
  act_in pausing cancel_seen s = see_cancel s (record s { phase = stopped })
  act_in phase action s = none

  unfoldable pub act : Action C → Session C → Option (Session C)
  act a s = act_in s.phase a s

  unfoldable pub run_session : List (Action C) → Session C → Option (Session C)
  run_session [] s = some s
  run_session (a ∷ rest) s = elim (act a s) [ none ↦ none | some s' ↦ run_session rest s' ]

-- What Health returns, for the client of the last login and whether its connection is open.
unfoldable pub health : {C : Type 0} → Session C → (C → Bool) → Option Text
health s is_connection_open = elim s.client [
  | none ↦ some (codes "not logged in to EcoFlow yet")
  | some c ↦
      if is_connection_open c then none else some (codes "not connected to the EcoFlow MQTT broker")
]

-- connected
unfoldable pub connected : {C : Type 0} → Session C → (C → Bool) → Bool
connected s is_connected = elim s.client [ none ↦ false | some c ↦ is_connected c ]
