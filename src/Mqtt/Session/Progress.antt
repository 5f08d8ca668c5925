-- ===== src/Mqtt/Session/Progress.antt =====
-- mqtt_exporter.go: that a request leads to a login, and the context's end to the return of `Run`.
use go_ecoflow_exporter.Base.{
  ℕ, ◌+◌, ◌≤◌, ◌<◌, Bool, true, false, none, some, List, [], ◌∷◌, ◌≡◌, ◌≢◌, ◌⊎◌, inl, inr, refl,
  arith, Option-cases,
}
use go_ecoflow_exporter.Mqtt.Session.{
  Phase, logging_in, connecting, waiting, pausing, stopped, Session, Action, relogin_read,
  pause_over, cancel_seen, relogin_requested, context_cancelled, end_session, request_relogin, act,
  run_session,
}

module _ {C : Type 0} where
  -- Whether an action is one of `Run`'s goroutine.
  abbrev pub own : Action C → ℕ
  own relogin_requested = 0
  own context_cancelled = 0
  own a = 1

  abbrev pub own_actions : List (Action C) → ℕ
  own_actions [] = 0
  own_actions (a ∷ rest) = own a + own_actions rest

-- How many of its actions `Run` is from its return at most, once the context has ended.
abbrev pub to_return : Phase → ℕ
to_return stopped = 0
to_return waiting = 1
to_return connecting = 2
to_return logging_in = 3
to_return pausing = 4

-- How many of its actions `Run` is from a login at most, once there is a request or a session has ended.
abbrev pub to_login : Phase → ℕ
to_login stopped = 0
to_login logging_in = 1
to_login pausing = 2
to_login waiting = 3
to_login connecting = 4

-- No session is open.
abbrev pub is_between : Phase → Bool
is_between logging_in = true
is_between pausing = true
is_between phase = false

module _ {C : Type 0} where
  -- The first action of a run, and the rest.
  pub run_session_first :
      (a : Action C) (rest : List (Action C)) (s s' : Session C)
      → run_session (a ∷ rest) s ≡ some s'
      → (next : Session C) × (act a s ≡ some next) × (run_session rest next ≡ some s')
  unfolding run_session
  run_session_first a rest s s' e = elim (Option-cases (act a s)) [
    | inl none_left ↦ absurd (cc (rw (run_session, none_left) at e))
    | inr (next, went) ↦ (next, went, rw (run_session, went) at e)
  ]

  cancelled-act :
      (a : Action C) (s s' : Session C)
      → s.cancelled ≡ true
      → act a s ≡ some s'
      → (own a + to_return s'.phase ≤ to_return s.phase) × (s'.cancelled ≡ true)
  unfolding act end_session request_relogin
  cancelled-act a s s' h e = ground arith

  can_return :
      (s : Session C) → s.cancelled ≡ true → (s.phase ≡ stopped) ⊎ (act cancel_seen s ≢ none)
  unfolding act
  can_return s h = ground arith

  -- Once the context has ended, `Run` returns: its goroutine has at most four more actions, whatever the others do and
  -- whichever of its possible actions a select takes, and it can always take one until it has returned.
  pub run_session-stops :
      (actions : List (Action C)) (s s' : Session C)
      → s.cancelled ≡ true
      → run_session actions s ≡ some s'
      → (own_actions actions + to_return s'.phase ≤ to_return s.phase)
        × ((s'.phase ≡ stopped) ⊎ (act cancel_seen s' ≢ none))
  unfolding run_session
  run_session-stops [] s s' h e =
      let same : s ≡ s' = cc in rw (← same) (omega arith, can_return s h)
  run_session-stops (a ∷ rest) s s' h e =
      let (next, went, runs) = run_session_first a rest s s' e in
      let (fewer, still) = cancelled-act a s next h went in
      let (later, ends) = run_session-stops rest next s' still runs in
      (omega (arith, fewer, later), ends)

  -- A request is in the channel, or no session is open.
  abbrev Asked : Session C → Type 0
  Asked s = (s.pending ≡ true) ⊎ (is_between s.phase ≡ true)

  act-Asked :
      (a : Action C) (s s' : Session C)
      → s.cancelled ≡ false
      → a ≢ context_cancelled
      → s.phase ≢ stopped
      → Asked s
      → act a s ≡ some s'
      → (s.logins < s'.logins)
        ⊎ ((s'.logins ≡ s.logins)
            × (own a + to_login s'.phase ≤ to_login s.phase)
            × (s'.cancelled ≡ false)
            × (s'.phase ≢ stopped)
            × Asked s')
  unfolding act end_session request_relogin
  act-Asked a s s' h n p q e = ground arith

  can_login :
      (s : Session C)
      → s.phase ≢ stopped
      → Asked s
      → (act relogin_read s ≢ none) ⊎ (act pause_over s ≢ none) ⊎ (s.phase ≡ logging_in)
  unfolding act
  can_login s p q = ground arith

  -- The context ends at none of the actions.
  abbrev pub GoesOn : List (Action C) → Type 0
  GoesOn [] = Unit
  GoesOn (a ∷ rest) = (a ≢ context_cancelled) × GoesOn rest

  logins-grow : (a : Action C) (s s' : Session C) → act a s ≡ some s' → s.logins ≤ s'.logins
  unfolding act end_session request_relogin
  logins-grow a s s' e = ground arith

  run-logins-grow :
      (actions : List (Action C)) (s s' : Session C)
      → run_session actions s ≡ some s'
      → s.logins ≤ s'.logins
  unfolding run_session
  run-logins-grow [] s s' e = let same : s ≡ s' = cc in rw (← same) (omega arith)
  run-logins-grow (a ∷ rest) s s' e =
      let (next, went, runs) = run_session_first a rest s s' e in
      omega (arith, logins-grow a s next went, run-logins-grow rest next s' runs)

  run_session-Asked :
      (actions : List (Action C)) (s s' : Session C)
      → s.cancelled ≡ false
      → s.phase ≢ stopped
      → Asked s
      → GoesOn actions
      → run_session actions s ≡ some s'
      → (s.logins < s'.logins)
        ⊎ ((own_actions actions + to_login s'.phase ≤ to_login s.phase)
            × ((act relogin_read s' ≢ none) ⊎ (act pause_over s' ≢ none) ⊎ (s'.phase ≡ logging_in)))
  unfolding run_session
  run_session-Asked [] s s' h p q goes e =
      let same : s ≡ s' = cc in rw (← same) (inr (omega arith, can_login s p q))
  run_session-Asked (a ∷ rest) s s' h p q (not_end, goes) e =
      let (next, went, runs) = run_session_first a rest s s' e in
      elim (act-Asked a s next h not_end p q went) [
        | inl new ↦ inl (omega (arith, new, run-logins-grow rest next s' runs))
        | inr (same, fewer, h', p', q') ↦ elim (run_session-Asked rest next s' h' p' q' goes runs) [
          | inl new ↦ inl (omega (arith, same, new))
          | inr (later, can) ↦ inr (omega (arith, fewer, later), can)
        ]
      ]

  -- A request for a login, made at any time before the context's end and whatever happens then, is not lost: `Run` logs in
  -- again after at most four of its actions, and until then it is never stuck: it can read the request, or go on
  -- from the pause between two sessions, or is at the login, whose attempts have no limit.
  pub run_session-logs_in :
      (actions : List (Action C)) (s s' : Session C)
      → s.cancelled ≡ false
      → s.phase ≢ stopped
      → GoesOn actions
      → run_session actions (request_relogin s) ≡ some s'
      → (s.logins < s'.logins)
        ⊎ ((own_actions actions + to_login s'.phase ≤ to_login s.phase)
            × ((act relogin_read s' ≢ none) ⊎ (act pause_over s' ≢ none) ⊎ (s'.phase ≡ logging_in)))
  unfolding request_relogin
  run_session-logs_in actions s s' h p goes e =
      run_session-Asked actions (request_relogin s) s' h p (inl refl) goes e
