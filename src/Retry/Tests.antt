-- ===== src/Retry/Tests.antt =====
-- The theorems on `retryWithBackoff` at concrete values.
use go_ecoflow_exporter.Base.{
  ℕ, Text, codes, false, Option, none, some, [], ◌∷◌, ◌≡◌, ◌==◌, inl, refl, arith, leb,
  if◌then◌else◌,
}
use go_ecoflow_exporter.Retry.{
  succeeded, cancelled, failed_after, retry_with_backoff, retry_from, retry_with_backoff_schedule,
  delays_from,
}

-- A login that works the third time.
abbrev third_time : ℕ → Option Text
third_time attempt = if leb 3 attempt then none else some (codes "busy")

third_login : retry_with_backoff 9 0 5 300 third_time (λ attempt. false) ≡ (succeeded, 5 ∷ 10 ∷ [])
unfolding retry_with_backoff retry_from
third_login = refl

given_up :
    retry_with_backoff 9 2 5 300 third_time (λ attempt. false)
    ≡ (failed_after (some (codes "busy")), 5 ∷ [])
unfolding retry_with_backoff retry_from
given_up = refl

stopped :
    retry_with_backoff 9 0 5 300 third_time (λ attempt. attempt == 2) ≡ (cancelled, 5 ∷ 10 ∷ [])
unfolding retry_with_backoff retry_from
stopped = refl

retry_with_backoff_schedule_example :
    retry_with_backoff 9 0 5 300 third_time (λ attempt. false) ≡ (succeeded, delays_from 5 300 0 2)
retry_with_backoff_schedule_example =
    retry_with_backoff_schedule 2 9 0 5 300 third_time (λ attempt. false) (omega arith)
      (omega arith) (inl refl) (λ e. absurd (cc), refl, (λ e. absurd (cc), refl, refl))
