-- ===== src/Watchdog.antt =====
-- main.go: `watchdog`. The ticks until the context's end are given: the time of each, in nanoseconds from the start of
-- the process on and not 0, and the result of the health check. The zero time is 0.
mod Tests
use go_ecoflow_exporter.Base.{
  ℕ, ◌-◌, ◌<◌, Text, Bool, true, false, Option, none, some, List, [], ◌∷◌, ◌++◌, ◌≡◌, refl, ◌∙◌, ap,
  ◌||◌, ◌==◌, ltb, arith, map, if◌then◌else◌, Bool-cases, inl, inr,
}

-- The result, `none` for the return of nil at the context's end; else how long the check has been failing, with its last error.
unfoldable pub watchdog : ℕ → ℕ → List (ℕ × Option Text) → Option (ℕ × Text)
watchdog limit failing_since [] = none
watchdog limit failing_since ((now, none) ∷ ticks) = watchdog limit 0 ticks
watchdog limit failing_since ((now, some err) ∷ ticks) =
    let first = watchdog limit now ticks in
    let waits = watchdog limit failing_since ticks in
    if failing_since == 0
    then first
    else if ltb limit (now - failing_since)
    then some (now - failing_since, err)
    else waits

abbrev pub is_stopped : Option (ℕ × Text) → Bool
is_stopped none = false
is_stopped (some r) = true

-- Whether the check fails, from the time `since` on, in each tick until one that comes more than `limit` after it.
unfoldable pub fails_through : ℕ → ℕ → List (ℕ × Option Text) → Bool
fails_through limit since [] = false
fails_through limit since ((now, none) ∷ ticks) = false
fails_through limit since ((now, some err) ∷ ticks) =
    let later = fails_through limit since ticks in ltb limit (now - since) || later

-- Whether some tick starts failures that last longer than `limit`.
unfoldable pub has_long_failure : ℕ → List (ℕ × Option Text) → Bool
has_long_failure limit [] = false
has_long_failure limit ((now, none) ∷ ticks) = has_long_failure limit ticks
has_long_failure limit ((now, some err) ∷ ticks) =
    let later = has_long_failure limit ticks in fails_through limit now ticks || later

-- Times do not decrease from `since` on.
abbrev pub AreOrdered : ℕ → List (ℕ × Option Text) → Type 0
AreOrdered since [] = Unit
AreOrdered since ((now, result) ∷ ticks) = (since < now) × AreOrdered now ticks

-- Failures that last from a later tick on last from an earlier one on too.
fails_through_earlier :
    (limit since now : ℕ) (ticks : List (ℕ × Option Text))
    → since < now
    → fails_through limit now ticks ≡ true
    → fails_through limit since ticks ≡ true
unfolding fails_through
fails_through_earlier limit since now [] h e = cc
fails_through_earlier limit since now ((t, none) ∷ ticks) h e = cc
fails_through_earlier limit since now ((t, some err) ∷ ticks) h e =
    ground (arith, fails_through_earlier limit since now ticks h)

ordered_from :
    (a b : ℕ) (ticks : List (ℕ × Option Text)) → b < a → AreOrdered a ticks → AreOrdered b ticks
ordered_from a b [] lt h = tt
ordered_from a b ((now, result) ∷ ticks) lt (after, h) = (omega arith, h)

stops_from :
    (limit since : ℕ) (ticks : List (ℕ × Option Text))
    → AreOrdered since ticks
    → is_stopped (watchdog limit since ticks) ≡ (
        if since == 0
        then has_long_failure limit ticks
        else fails_through limit since ticks || has_long_failure limit ticks)
unfolding watchdog has_long_failure fails_through
stops_from limit since [] h = ground arith
stops_from limit since ((now, none) ∷ ticks) (after, h) =
    ground (arith, stops_from limit 0 ticks (ordered_from now 0 ticks (omega arith) h))
stops_from limit since ((now, some err) ∷ ticks) (after, h) =
    let started = stops_from limit now ticks h in
    let goes_on = stops_from limit since ticks (ordered_from now since ticks after h) in
    ground (arith, fails_through_earlier limit since now ticks after)

-- The watchdog stops the exporter exactly if the health check fails from some tick on in every tick up to one that comes
-- more than the limit later; shorter failures, however many, do not stop it. Assumed: the clock advances between ticks.
pub watchdog-has_long_failure :
    (limit : ℕ) (ticks : List (ℕ × Option Text))
    → AreOrdered 0 ticks
    → is_stopped (watchdog limit 0 ticks) ≡ has_long_failure limit ticks
watchdog-has_long_failure limit ticks h = stops_from limit 0 ticks h
