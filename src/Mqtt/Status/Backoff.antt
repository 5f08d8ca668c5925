-- ===== src/Mqtt/Status/Backoff.antt =====
-- mqtt_exporter.go: the spacing of forced reconnects, and when a login takes the place of one.
use native.Mathlib.Nat.{pow-suc}
use go_ecoflow_exporter.Base.{
  ℕ, zero, suc, ◌+◌, ◌*◌, ◌%◌, ◌^◌, ◌≤◌, min, true, false, List, [], ◌∷◌, ◌≡◌, refl, ap, ◌∙◌, arith,
  ltb, ◌==◌, if◌then◌else◌, inl, inr, Bool-cases, Text,
}
use go_ecoflow_exporter.Mqtt.Status.{
  Status, max_reconnect_delay, next_delay, reconnect_due, relogin_due, mark_received,
}

-- The delay that follows reconnect number `i` since the last message, from 0.
abbrev pub backoff : ℕ → ℕ → ℕ
backoff threshold i = min (threshold * 2 ^ i) max_reconnect_delay

doubled : (threshold i : ℕ) → threshold * 2 ^ suc i ≡ 2 * (threshold * 2 ^ i)
doubled threshold i = omega (arith, ap (λ (t : ℕ). threshold * t) (pow-suc 2 i))

le-mul-pow : (threshold i : ℕ) → threshold ≤ threshold * 2 ^ i
le-mul-pow threshold zero = omega arith
le-mul-pow threshold (suc i) = omega (arith, doubled threshold i, le-mul-pow threshold i)

next_delay-backoff :
    (threshold i : ℕ) → next_delay threshold (backoff threshold i) ≡ backoff threshold (suc i)
next_delay-backoff threshold i = omega (arith, doubled threshold i, le-mul-pow threshold i)

next_delay_first : (threshold : ℕ) → next_delay threshold 0 ≡ backoff threshold 0
next_delay_first threshold = omega arith

-- The times, of those given, at which `reconnectDue` lets a reconnect run, with no message in between.
unfoldable pub due_run : ℕ → List ℕ → Status → List ℕ
due_run threshold [] st = []
due_run threshold (now ∷ times) st =
    let (due, st') = reconnect_due now threshold st in
    let rest = due_run threshold times st' in if due then now ∷ rest else rest

-- The same from the number of reconnects so far and the time of the last one.
pub schedule : ℕ → ℕ → ℕ → List ℕ → List ℕ
schedule threshold i last [] = []
schedule threshold i last (now ∷ times) =
    let early = schedule threshold i last times in
    let later = now ∷ schedule threshold (suc i) now times in
    if ltb now (last + backoff threshold i) then early else later

too_early :
    (threshold now : ℕ) (st : Status)
    → ltb now st.next_reconnect ≡ true
    → reconnect_due now threshold st ≡ (false, st)
unfolding reconnect_due
too_early threshold now st e = ground arith

not_early :
    (threshold now : ℕ) (st : Status)
    → ltb now st.next_reconnect ≡ false
    → reconnect_due now threshold st ≡ (
      true,
      record st {
        reconnect_delay = next_delay threshold st.reconnect_delay;
        next_reconnect = now + next_delay threshold st.reconnect_delay;
      },
    )
unfolding reconnect_due
not_early threshold now st e = ground arith

due_run-schedule_from :
    (threshold i last : ℕ) (times : List ℕ) (st : Status)
    → st.reconnect_delay ≡ backoff threshold i
    → st.next_reconnect ≡ last + backoff threshold i
    → due_run threshold times st ≡ schedule threshold i last times
unfolding due_run schedule
due_run-schedule_from threshold i last [] st d n = refl
due_run-schedule_from threshold i last (now ∷ times) st d n =
    elim (Bool-cases (ltb now (last + backoff threshold i))) [
      | inl e ↦
          rw (too_early threshold now st (rw n e), e)
            (due_run-schedule_from threshold i last times st d n)
      | inr e ↦
          let delay = ap (next_delay threshold) d ∙ next_delay-backoff threshold i in
          rw (not_early threshold now st (rw n e), e)
            (ap (λ (ts : List ℕ). now ∷ ts)
              (due_run-schedule_from threshold (suc i) now times _ delay
                (ap (λ (t : ℕ). now + t) delay)))
    ]

-- After a message the first request for a reconnect is granted at once. While no message comes, the
-- one after reconnect number i (from 0) is granted exactly from min(threshold * 2^i, ten minutes)
-- after that reconnect on.
pub due_run-schedule :
    (threshold received now : ℕ) (sn : Text) (times : List ℕ) (st : Status)
    → due_run threshold (now ∷ times) (mark_received received sn st).0
      ≡ now ∷ schedule threshold 0 now times
unfolding due_run mark_received
due_run-schedule threshold received now sn times st =
    let fresh : Status = (mark_received received sn st).0 in
    rw (not_early threshold now fresh (ground arith)) (
      ap (λ (ts : List ℕ). now ∷ ts)
        (due_run-schedule_from threshold 0 now times _ (next_delay_first threshold)
          (ap (λ (t : ℕ). now + t) (next_delay_first threshold))))

-- The status after some calls of `reloginDue`.
pub after_calls : ℕ → Status → Status
after_calls zero st = st
after_calls (suc n) st = (relogin_due (after_calls n st)).1

fruitless-after_calls :
    (n : ℕ) (st : Status)
    → st.fruitless_reconnects ≡ 0
    → (after_calls n st).fruitless_reconnects ≡ n % 3
unfolding after_calls relogin_due
fruitless-after_calls zero st h = h
fruitless-after_calls (suc n) st h = ground (arith, fruitless-after_calls n st h)

-- While no message comes, every third granted reconnect, and no other, is replaced by a login: the
-- call of `reloginDue` that follows n calls since the last message is positive exactly if n is 2
-- modulo 3.
pub relogin_every_third :
    (n received : ℕ) (sn : Text) (st : Status)
    → (relogin_due (after_calls n (mark_received received sn st).0)).0 ≡ (n % 3 == 2)
unfolding relogin_due mark_received
relogin_every_third n received sn st =
    ground (arith, fruitless-after_calls n (mark_received received sn st).0 refl)
