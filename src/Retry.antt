-- ===== src/Retry.antt =====
-- retry.go: `retryWithBackoff`. The attempts' results and which waits the context's end cuts short are given, each by
-- the attempt's number from 1. A duration is a number of nanoseconds, far below 2^62 for all callers, so that
-- doubling it does not overflow. A loop of `attempts = 0` may run for ever: `fuel` bounds the attempts.
mod Tests
use native.Mathlib.Nat.{pow-succ', mul_left_comm}
use go_ecoflow_exporter.Base.{
  ℕ, zero, suc, ◌+◌, ◌*◌, ◌^◌, ◌≤◌, ◌<◌, min, Text, Bool, true, false, not, ◌&&◌, ◌||◌, Option,
  none, some, List, [], ◌∷◌, ◌≡◌, ◌≢◌, ◌⊎◌, inl, inr, refl, ap, sym, ◌∙◌, ◌==◌, leb, arith, length,
  if◌then◌else◌, Bool-cases, Option-cases,
}

pub data RetryResult : Type 0 where
  succeeded cancelled out_of_fuel : RetryResult
  failed_after : Option Text → RetryResult

-- Whether another attempt may follow, `attempts != 0 && attempt == attempts`.
abbrev is_last_attempt : ℕ → ℕ → Bool
is_last_attempt attempts attempt = not (attempts == 0) && attempt == attempts

module _ (attempts max_delay : ℕ) (fn : ℕ → Option Text) (is_done : ℕ → Bool) where
  -- One turn behind the loop's condition, with what the later turns give: the result, and the delays that were waited for.
  abbrev turn : ℕ → ℕ → Option Text → RetryResult × List ℕ → RetryResult × List ℕ
  turn attempt delay none rest = (succeeded, [])
  turn attempt delay (some err) rest =
      if is_last_attempt attempts attempt
      then (failed_after (some err), [])
      else if is_done attempt
      then (cancelled, delay ∷ [])
      else (rest.0, delay ∷ rest.1)

  unfoldable pub retry_from : ℕ → ℕ → ℕ → Option Text → RetryResult × List ℕ
  retry_from zero attempt delay err = (out_of_fuel, [])
  retry_from (suc fuel) attempt delay err =
      let rest = retry_from fuel (attempt + 1) (min (2 * delay) max_delay) (fn attempt) in
      if attempts == 0 || leb attempt attempts
      then turn attempt delay (fn attempt) rest
      else (failed_after err, [])

unfoldable pub retry_with_backoff :
    ℕ → ℕ → ℕ → ℕ → (ℕ → Option Text) → (ℕ → Bool) → RetryResult × List ℕ
retry_with_backoff fuel attempts initial max_delay fn is_done =
    retry_from attempts max_delay fn is_done fuel 1 initial none

module _ (attempts max_delay : ℕ) (fn : ℕ → Option Text) (is_done : ℕ → Bool) where
  turn_ends :
      (attempt delay : ℕ) (result : Option Text) (rest : RetryResult × List ℕ)
      → (rest.0 ≢ out_of_fuel) ⊎ (is_last_attempt attempts attempt ≡ true)
      → (turn attempts max_delay fn is_done attempt delay result rest).0 ≢ out_of_fuel
  turn_ends attempt delay none rest h = λ e. absurd (cc)
  turn_ends attempt delay (some err) rest h = ground arith

  cond_ends :
      (b : Bool) (err : Option Text) (t : RetryResult × List ℕ)
      → (b ≡ true → t.0 ≢ out_of_fuel)
      → (if b then t else (failed_after err, [])).0 ≢ out_of_fuel
  cond_ends true err t h = h refl
  cond_ends false err t h = λ e. absurd (cc)

  retry_from_ends :
      (fuel attempt delay : ℕ) (err : Option Text)
      → attempts ≢ 0
      → attempts < attempt + suc fuel
      → (retry_from attempts max_delay fn is_done (suc fuel) attempt delay err).0 ≢ out_of_fuel
  unfolding retry_from
  retry_from_ends zero attempt delay err h enough =
      cond_ends (attempts == 0 || leb attempt attempts) err _
        (λ b. turn_ends attempt delay (fn attempt) _ (inr (ground arith)))
  retry_from_ends (suc fuel) attempt delay err h enough =
      cond_ends (attempts == 0 || leb attempt attempts) err _ (λ b.
        turn_ends attempt delay (fn attempt) _ (
          inl (
            retry_from_ends fuel (attempt + 1) (min (2 * delay) max_delay) (fn attempt) h
              (omega arith))))

-- With a limit on the attempts, as many turns are enough: the loop ends with success, with the context's end or
-- with the error after the last attempt.
pub retry_with_backoff_ends :
    (fuel attempts initial max_delay : ℕ) (fn : ℕ → Option Text) (is_done : ℕ → Bool)
    → attempts ≢ 0
    → attempts ≤ fuel
    → (retry_with_backoff fuel attempts initial max_delay fn is_done).0 ≢ out_of_fuel
unfolding retry_with_backoff
retry_with_backoff_ends zero attempts initial max_delay fn is_done h enough = absurd (omega arith)
retry_with_backoff_ends (suc fuel) attempts initial max_delay fn is_done h enough =
    retry_from_ends attempts max_delay fn is_done fuel 1 initial none h (omega arith)

-- The delay after attempt `i + 1` and the `n - 1` delays after it.
unfoldable pub delays_from : ℕ → ℕ → ℕ → ℕ → List ℕ
delays_from initial max_delay i zero = []
delays_from initial max_delay i (suc n) =
    min (initial * 2 ^ i) max_delay ∷ delays_from initial max_delay (i + 1) n

capped_double : (x y m : ℕ) → y ≡ 2 * x → min (2 * min x m) m ≡ min y m
capped_double x y m e = ground arith

capped_delay :
    (initial max_delay i : ℕ)
    → min (2 * min (initial * 2 ^ i) max_delay) max_delay ≡ min (initial * 2 ^ (i + 1)) max_delay
capped_delay initial max_delay i =
    capped_double (initial * 2 ^ i) (initial * 2 ^ (i + 1)) max_delay (
      ap (λ k. initial * 2 ^ k) (let e : i + 1 ≡ suc i = omega arith in e)
      ∙ ap (λ x. initial * x) (pow-succ' 2 i)
      ∙ mul_left_comm initial 2 (2 ^ i))

-- The attempts from `i + 1` on fail and their waits pass, until attempt `i + n + 1` succeeds.
abbrev pub SucceedsAfter : (ℕ → Option Text) → (ℕ → Bool) → ℕ → ℕ → Type 0
SucceedsAfter fn is_done i zero = fn (i + 1) ≡ none
SucceedsAfter fn is_done i (suc n) =
    (fn (i + 1) ≢ none) × (is_done (i + 1) ≡ false) × SucceedsAfter fn is_done (i + 1) n

module _ (attempts initial max_delay : ℕ) (fn : ℕ → Option Text) (is_done : ℕ → Bool) where
  retry_from_schedule :
      (n i fuel : ℕ) (err : Option Text)
      → n < fuel
      → (attempts ≡ 0) ⊎ (i + n < attempts)
      → SucceedsAfter fn is_done i n
      → retry_from attempts max_delay fn is_done fuel (i + 1) (min (initial * 2 ^ i) max_delay) err
        ≡ (succeeded, delays_from initial max_delay i n)
  unfolding retry_from delays_from
  retry_from_schedule n i zero err enough allowed succeeds = absurd (omega arith)
  retry_from_schedule zero i (suc fuel) err enough allowed succeeds =
      let enters : (attempts == 0 || leb (i + 1) attempts) ≡ true = ground arith in
      rw (enters, succeeds) refl
  retry_from_schedule (suc n) i (suc fuel) err enough allowed succeeds =
      let enters : (attempts == 0 || leb (i + 1) attempts) ≡ true = ground arith in
      let follows : is_last_attempt attempts (i + 1) ≡ false = ground arith in
      elim (Option-cases (fn (i + 1))) [
        | inl e ↦ absurd (succeeds.0 e)
        | inr (reason, e) ↦
            let later =
              retry_from_schedule n (i + 1) fuel (some reason) (omega arith) (ground arith)
                succeeds.2 in
            rw (enters, capped_delay initial max_delay i, e, follows, succeeds.1, later) refl
      ]

-- Attempts that fail `n` times, with no wait cut short, and then succeed, within the allowed number, give success
-- after waits of initial, 2 initial, 4 initial and so on, each cut at the longest delay. So many turns are enough.
-- Assumed: the initial delay is at most the longest one.
pub retry_with_backoff_schedule :
    (n fuel attempts initial max_delay : ℕ) (fn : ℕ → Option Text) (is_done : ℕ → Bool)
    → initial ≤ max_delay
    → n < fuel
    → (attempts ≡ 0) ⊎ (n < attempts)
    → SucceedsAfter fn is_done 0 n
    → retry_with_backoff fuel attempts initial max_delay fn is_done
      ≡ (succeeded, delays_from initial max_delay 0 n)
unfolding retry_with_backoff
retry_with_backoff_schedule n fuel attempts initial max_delay fn is_done small enough allowed
      succeeds =
    let first : min (initial * 2 ^ 0) max_delay ≡ initial = omega arith in
    ap (λ d. retry_from attempts max_delay fn is_done fuel 1 d none) (sym first)
    ∙ retry_from_schedule attempts initial max_delay fn is_done n 0 fuel none enough (ground arith)
        succeeds
