-- ===== src/Start/Exit.antt =====
-- main.go: when the process exits with a failure.
use go_ecoflow_exporter.Base.{ℕ, Text, Bool, true, false, Option, none, some, List, ◌≡◌, ◌↔◌, arith}
use go_ecoflow_exporter.Watchdog.{
  watchdog, is_stopped, AreOrdered, has_long_failure, watchdog-has_long_failure,
}
use go_ecoflow_exporter.Start.{run_result, exit_code, unhealthy_exit_after}

-- What the watchdog cancels the context with.
abbrev pub cause_of : Option (ℕ × Text) → Option Text
cause_of none = none
cause_of (some (failing, err)) = some err

stopped_exit :
    (signalled : Bool) (w : Option (ℕ × Text))
    → (exit_code (run_result signalled (cause_of w) none) ≡ 1)
      ↔ ((signalled ≡ false) × (is_stopped w ≡ true))
unfolding exit_code run_result
stopped_exit signalled w = ground arith

-- Where the exporter's `Run` returns no error, as both exporters' do, the process exits with 1, so that it is restarted,
-- exactly if no signal ended it and the health check failed from some tick of the watchdog on in every one up to a tick
-- that came more than thirty minutes later. Assumed: the clock advances between ticks.
pub exit_code-watchdog :
    (signalled : Bool) (ticks : List (ℕ × Option Text))
    → AreOrdered 0 ticks
    → (exit_code (run_result signalled (cause_of (watchdog unhealthy_exit_after 0 ticks)) none) ≡ 1)
      ↔ ((signalled ≡ false) × (has_long_failure unhealthy_exit_after ticks ≡ true))
exit_code-watchdog signalled ticks h =
    rw (← watchdog-has_long_failure unhealthy_exit_after ticks h)
      (stopped_exit signalled (watchdog unhealthy_exit_after 0 ticks))
