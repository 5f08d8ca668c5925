-- ===== src/Watchdog/Tests.antt =====
-- The theorem on the watchdog at concrete values.
use go_ecoflow_exporter.Base.{ℕ, Text, codes, Option, none, some, List, [], ◌∷◌, ◌≡◌, refl, arith}
use go_ecoflow_exporter.Watchdog.{watchdog, is_stopped, has_long_failure, watchdog-has_long_failure}

-- Two failures with a recovery between them.
abbrev test_ticks : List (ℕ × Option Text)
test_ticks =
    (60, some (codes "down"))
    ∷ (120, none)
    ∷ (180, some (codes "down"))
    ∷ (240, some (codes "down"))
    ∷ (310, some (codes "still down"))
    ∷ []

stopped_late : watchdog 100 0 test_ticks ≡ some (130, codes "still down")
unfolding watchdog
stopped_late = refl

not_stopped : watchdog 150 0 test_ticks ≡ none
unfolding watchdog
not_stopped = refl

watchdog-has_long_failure_example :
    is_stopped (watchdog 100 0 test_ticks) ≡ has_long_failure 100 test_ticks
watchdog-has_long_failure_example =
    watchdog-has_long_failure 100 test_ticks
      (omega arith, (omega arith, (omega arith, (omega arith, (omega arith, tt)))))
