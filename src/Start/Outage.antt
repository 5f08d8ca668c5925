-- ===== src/Start/Outage.antt =====
-- main.go and rest_exporter.go together: what becomes of the process while the REST API gives no device list.
use go_ecoflow_exporter.Base.{
  ℕ, ◌-◌, ◌*◌, ◌^◌, max, ◌<◌, ◌≤◌, Text, Bool, true, false, not, Option, none, some, List, [], ◌∷◌,
  ◌≡◌, ◌↔◌, refl, ap, ◌∙◌, ltb, arith, In, inl, inr, Bool-cases, if◌then◌else◌,
}
use go_ecoflow_exporter.Watchdog.{watchdog, AreOrdered, fails_through, has_long_failure}
use go_ecoflow_exporter.Rest.{RestMetricsExporter, health_limit, health}
use go_ecoflow_exporter.Rest.Scrape.{health_limit_exact}
use go_ecoflow_exporter.Mqtt.Status.{second}
use go_ecoflow_exporter.Start.{run_result, exit_code, unhealthy_exit_after}
use go_ecoflow_exporter.Start.Exit.{cause_of, exit_code-watchdog}

-- The check at a time, by a health that ends at some time.
abbrev check_at : ℕ → ℕ → Text → ℕ → ℕ × Option Text
check_at allowed last err now = (now, if ltb allowed (now - last) then some err else none)

abbrev checks : ℕ → ℕ → Text → List ℕ → List (ℕ × Option Text)
checks allowed last err [] = []
checks allowed last err (now ∷ times) =
    check_at allowed last err now ∷ checks allowed last err times

if_not {ℓ} : {A : Type ℓ} (b : Bool) (x y : A) → (if not b then x else y) ≡ (if b then y else x)
if_not true x y = refl
if_not false x y = refl

-- The times of the ticks, from `since` on.
abbrev pub AreTimes : ℕ → List ℕ → Type 0
AreTimes since [] = Unit
AreTimes since (now ∷ times) = (since < now) × AreTimes now times

module _ (limit allowed last : ℕ) where
  -- Two ticks, of which the first comes when the check fails already, and the second more than the limit after it.
  abbrev pub IsLong : List ℕ → Type 0
  IsLong times =
      (a : ℕ) × (b : ℕ) × In a times × In b times × (allowed < a - last) × (limit < b - a)

module _ (limit allowed last : ℕ) (err : Text) where
  AreTimes-AreOrdered :
      (since : ℕ) (times : List ℕ)
      → AreTimes since times
      → AreOrdered since (checks allowed last err times)
  AreTimes-AreOrdered since [] h = tt
  AreTimes-AreOrdered since (now ∷ times) (lt, h) = (lt, AreTimes-AreOrdered now times h)

  late_later :
      (a since b : ℕ) (times : List ℕ) → AreTimes since times → a ≤ since → In b times → a < b
  late_later a since b [] h le i = absurd i
  late_later a since b (now ∷ times) (lt, h) le (inl e) = omega (arith, e)
  late_later a since b (now ∷ times) (lt, h) le (inr i) = late_later a now b times h (omega arith) i

  fails_through_until :
      (since : ℕ) (times : List ℕ)
      → fails_through limit since (checks allowed last err times) ≡ true
      → (b : ℕ) × In b times × (limit < b - since)
  unfolding fails_through
  fails_through_until since [] e = absurd (cc)
  fails_through_until since (now ∷ times) e = elim (Bool-cases (ltb allowed (now - last))) [
    | inr fine ↦ absurd (cc (rw (fails_through, fine) at e))
    | inl late ↦ elim (Bool-cases (ltb limit (now - since))) [
      | inl over ↦ (now, inl refl, ground arith)
      | inr under ↦
          let (b, i, far) = fails_through_until since times (ground (arith, e, late, under)) in
          (b, inr i, far)
    ]
  ]

  fails_through_since :
      (since from b : ℕ) (times : List ℕ)
      → AreTimes from times
      → since ≤ from
      → allowed < since - last
      → In b times
      → limit < b - since
      → fails_through limit since (checks allowed last err times) ≡ true
  unfolding fails_through
  fails_through_since since from b [] h le late i far = absurd i
  fails_through_since since from b (now ∷ times) (lt, h) le late (inl e) far = ground (arith, e)
  fails_through_since since from b (now ∷ times) (lt, h) le late (inr i) far =
      ground (arith, fails_through_since since now b times h (omega arith) late i far)

  IsLong-of_failure :
      (times : List ℕ)
      → has_long_failure limit (checks allowed last err times) ≡ true
      → IsLong limit allowed last times
  unfolding has_long_failure
  IsLong-of_failure [] e = absurd (cc)
  IsLong-of_failure (now ∷ times) e = elim (Bool-cases (ltb allowed (now - last))) [
    | inr fine ↦
        let (a, b, i, j, late, far) = IsLong-of_failure times (ground (arith, e, fine)) in
        (a, b, inr i, inr j, late, far)
    | inl late ↦ elim (Bool-cases (fails_through limit now (checks allowed last err times))) [
      | inl through ↦
          let (b, j, far) = fails_through_until now times through in
          (now, b, inl refl, inr j, ground arith, far)
      | inr short ↦
          let (a, b, i, j, later, far) = IsLong-of_failure times (ground (arith, e, late, short)) in
          (a, b, inr i, inr j, later, far)
    ]
  ]

  failure_of_IsLong :
      (since a b : ℕ) (times : List ℕ)
      → AreTimes since times
      → In a times
      → In b times
      → allowed < a - last
      → limit < b - a
      → has_long_failure limit (checks allowed last err times) ≡ true
  unfolding has_long_failure
  failure_of_IsLong since a b [] h i j late far = absurd i
  failure_of_IsLong since a b (now ∷ times) (lt, h) (inl e) (inl e') late far =
      absurd (omega (arith, e, e'))
  failure_of_IsLong since a b (now ∷ times) (lt, h) (inl e) (inr j) late far =
      ground (arith, e, fails_through_since a now b times h (omega (arith, e)) late j far)
  failure_of_IsLong since a b (now ∷ times) (lt, h) (inr i) (inl e) late far =
      absurd (omega (arith, e, late_later now now a times h (omega arith) i))
  failure_of_IsLong since a b (now ∷ times) (lt, h) (inr i) (inr j) late far =
      let later = failure_of_IsLong now a b times h i j late far in ground (arith, later)

module _ {F64 F32 W : Type 0} (e : RestMetricsExporter F64 F32 W) where
  -- When the device list was got last, or `Run` began.
  abbrev pub last_heard : ℕ
  last_heard = if ltb 0 e.last_success then e.last_success else e.started

  -- The ticks of the watchdog, with what the exporter's health check returns then.
  abbrev pub health_checks : Text → List ℕ → List (ℕ × Option Text)
  health_checks err [] = []
  health_checks err (now ∷ times) =
      (now, if health now e then none else some err) ∷ health_checks err times

  health_checks_lem :
      (err : Text) (times : List ℕ)
      → health_checks err times ≡ checks (health_limit e) last_heard err times
  unfolding health
  health_checks_lem err [] = refl
  health_checks_lem err (now ∷ times) =
      ap (λ rest. (now, if health now e then none else some err) ∷ rest)
        (health_checks_lem err times)
      ∙ ap (λ o. (now, o) ∷ checks (health_limit e) last_heard err times)
          (if_not (ltb (health_limit e) (now - last_heard)) none (some err))

  -- With a REST exporter that gets no device list any more, the process exits with 1, so that it is restarted, exactly if
  -- no signal ended it, and some tick of the watchdog came when the last list (or, without one, the start) was
  -- more than three intervals and than two minutes ago, and another tick more than thirty minutes after that one.
  -- Assumed: the clock advances between ticks, and three intervals fit into an int64 of nanoseconds.
  pub exit_code-health :
      (signalled : Bool) (err : Text) (times : List ℕ)
      → AreTimes 0 times
      → 3 * e.interval < 2 ^ 63
      → let stopped = watchdog unhealthy_exit_after 0 (health_checks err times) in
        (exit_code (run_result signalled (cause_of stopped) none) ≡ 1) ↔ (
          (signalled ≡ false)
          × IsLong unhealthy_exit_after (max (3 * e.interval) (120 * second)) last_heard times)
  exit_code-health signalled err times h fits =
      let allowed = max (3 * e.interval) (120 * second) in
      let ordered = AreTimes-AreOrdered unhealthy_exit_after allowed last_heard err 0 times h in
      let exits = exit_code-watchdog signalled (checks allowed last_heard err times) ordered in
      rw (health_checks_lem err times, health_limit_exact e fits)
        (
          λ x.
              let (no_signal, failure) = exits.0 x in
              (
                no_signal,
                IsLong-of_failure unhealthy_exit_after allowed last_heard err times failure,
              ),
          λ (no_signal, (a, b, i, j, late, far)). exits.1 (
            no_signal,
            failure_of_IsLong unhealthy_exit_after allowed last_heard err 0 a b times h i j late
                far,
          ),
        )
