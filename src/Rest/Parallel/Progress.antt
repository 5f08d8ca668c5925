-- ===== src/Rest/Parallel/Progress.antt =====
-- rest_exporter.go: how many requests a scrape makes at once, and that its goroutines end.
use native.Mathlib.Decide.{dec_lt}
use go_ecoflow_exporter.Base.{
  ℕ, suc, ◌+◌, ◌*◌, ◌≤◌, ◌<◌, Text, Option, none, some, List, [], ◌∷◌, length, ◌≡◌, ◌≢◌, ◌⊎◌, refl,
  ap, inl, inr, arith, Option-cases,
}
use go_ecoflow_exporter.Base.Dict.{Dict}
use go_ecoflow_exporter.Update.{Any}
use go_ecoflow_exporter.Rest.{DeviceInfo, Answer, RestMetricsExporter}
use go_ecoflow_exporter.Rest.Parallel.{
  rest_concurrency, Phase, waiting, fetching, fetched, released, given_up, Slot, Shared, Fetching,
  Move, admits, fetches, releases, Action, goes, context_cancelled, next_to, before, move_in,
  move_at, moved, act, run_fetch, start_fetch,
}
use go_ecoflow_exporter.Rest.Parallel.Steps.{
  MoveOf, admitted, gave_up, did_fetch, left, MoveIn, here, there, Step, moves, cancels, act-MoveIn,
  run_fetch_kept,
}
use go_ecoflow_exporter.Rest.Parallel.Counts.{
  holds, to_go, sum_of, under_way, steps_left, own_moves, own_moves-cons, waits, start-steps_left,
  start-holds, under_way-le, steps_left-le,
}

module _ {F64 F32 W : Type 0} (now : ℕ) (answer : Text → Answer (Dict (Any F64 F32))) where
  MoveOf-counted :
      {s : Slot F64 F32} {g : Shared F64 F32 W} {s' : Slot F64 F32} {g' : Shared F64 F32 W}
      → MoveOf now answer s g s' g'
      → (to_go s'.phase < to_go s.phase)
        × (holds s'.phase + g.tokens ≡ holds s.phase + g'.tokens)
        × (g.tokens ≤ rest_concurrency → g'.tokens ≤ rest_concurrency)
  MoveOf-counted (admitted h room) = rw (h) (omega arith, omega arith, λ c. omega arith)
  MoveOf-counted (gave_up h ended) = rw (h) (omega arith, omega arith, λ c. c)
  MoveOf-counted (did_fetch h) = rw (h) (omega arith, omega arith, λ c. c)
  MoveOf-counted (left h some_left) = rw (h) (omega arith, omega arith, λ c. omega arith)

  MoveIn-counted :
      {g g' : Shared F64 F32 W} {ss ss' : List (Slot F64 F32)}
      → MoveIn now answer g g' ss ss'
      → (steps_left ss' < steps_left ss)
        × (sum_of holds ss' + g.tokens ≡ sum_of holds ss + g'.tokens)
        × (g.tokens ≤ rest_concurrency → g'.tokens ≤ rest_concurrency)
  MoveIn-counted (here m) =
      let (fewer, same, capped) = MoveOf-counted m in (omega arith, omega arith, capped)
  MoveIn-counted (there m) =
      let (fewer, same, capped) = MoveIn-counted m in (omega arith, omega arith, capped)

  record IsBounded (f : Fetching F64 F32 W) : Type 0 where
    counted : sum_of holds f.slots ≡ f.shared.tokens
    capped : f.shared.tokens ≤ rest_concurrency

  Step-IsBounded : (f f' : Fetching F64 F32 W) → Step now answer f f' → IsBounded f → IsBounded f'
  Step-IsBounded f f' (moves ss g m) h =
      let (fewer, same, capped) = MoveIn-counted m in
      record { counted = omega (arith, h.counted); capped = capped h.capped }
  Step-IsBounded f f' cancels h = record { counted = h.counted; capped = h.capped }

  abbrev left_in : Option (Fetching F64 F32 W) → ℕ
  left_in none = 0
  left_in (some f) = steps_left f.slots

  act_fewer :
      (a : Action) (f f' : Fetching F64 F32 W)
      → act now answer a f ≡ some f'
      → own_moves (a ∷ []) + steps_left f'.slots ≤ steps_left f.slots
  unfolding act
  act_fewer (goes i m) f f' e =
      let (fewer, same, capped) = MoveIn-counted (act-MoveIn now answer i m f f' e) in omega arith
  act_fewer context_cancelled f f' e =
      omega (arith, ap (λ (x : Option (Fetching F64 F32 W)). left_in x) e)

  run_fetch_fewer :
      (actions : List Action) (f f' : Fetching F64 F32 W)
      → run_fetch now answer actions f ≡ some f'
      → own_moves actions + steps_left f'.slots ≤ steps_left f.slots
  unfolding run_fetch
  run_fetch_fewer [] f f' e = let same : f ≡ f' = cc in rw (← same) (omega arith)
  run_fetch_fewer (a ∷ rest) f f' e = elim (Option-cases (act now answer a f)) [
    | inl stuck ↦ absurd (cc (rw (run_fetch, stuck) at e))
    | inr (next, went) ↦
        let ih = run_fetch_fewer rest next f' (rw (run_fetch, went) at e) in
        omega (arith, ih, act_fewer a f next went, own_moves-cons a rest)
  ]

  next_to-ne-none :
      (s : Slot F64 F32) (r : Option (List (Slot F64 F32) × Shared F64 F32 W))
      → r ≢ none
      → next_to s r ≢ none
  next_to-ne-none s none h = h
  next_to-ne-none s (some (ss, g)) h = λ e. cc

  moved-ne-none :
      (r : Option (List (Slot F64 F32) × Shared F64 F32 W)) → r ≢ none → moved now answer r ≢ none
  moved-ne-none none h = λ e. h refl
  moved-ne-none (some (ss, g)) h = λ e. cc

  -- A step of the first goroutine that is of a kind.
  first_free :
      (count : Phase → ℕ) (g : Shared F64 F32 W)
      → ((s : Slot F64 F32) (ss : List (Slot F64 F32))
          → (count s.phase ≡ 0)
            ⊎ ((m : Move) × (before ss (move_in now answer s.phase m s g) ≢ none)))
      → (ss : List (Slot F64 F32)) → sum_of count ss ≢ 0
      → (i : ℕ) × (m : Move) × (move_at now answer i m ss g ≢ none)
  unfolding move_at
  first_free count g free [] some_left = absurd (some_left refl)
  first_free count g free (s ∷ ss) some_left = elim (free s ss) [
    | inl other ↦
        let (i, m, possible) = first_free count g free ss (λ none_left. some_left (omega arith)) in
        (suc i, m, next_to-ne-none s (move_at now answer i m ss g) possible)
    | inr (m, possible) ↦ (0, m, possible)
  ]

  holder_goes :
      (g : Shared F64 F32 W)
      → 0 < g.tokens
      → (phase : Phase) (s : Slot F64 F32) (ss : List (Slot F64 F32))
      → (holds phase ≡ 0) ⊎ ((m : Move) × (before ss (move_in now answer phase m s g) ≢ none))
  holder_goes g h waiting s ss = inl refl
  holder_goes g h fetching s ss = inr (fetches, λ e. cc)
  holder_goes g h fetched s ss = inr (releases, λ e. ground arith)
  holder_goes g h released s ss = inl refl
  holder_goes g h given_up s ss = inl refl

  waiter_goes :
      (g : Shared F64 F32 W)
      → g.tokens < rest_concurrency
      → (phase : Phase) (s : Slot F64 F32) (ss : List (Slot F64 F32))
      → (waits phase ≡ 0) ⊎ ((m : Move) × (before ss (move_in now answer phase m s g) ≢ none))
  waiter_goes g h waiting s ss = inr (admits, λ e. ground arith)
  waiter_goes g h fetching s ss = inl refl
  waiter_goes g h fetched s ss = inl refl
  waiter_goes g h released s ss = inl refl
  waiter_goes g h given_up s ss = inl refl

  one_goes :
      (f : Fetching F64 F32 W)
      → IsBounded f
      → steps_left f.slots ≢ 0
      → (i : ℕ) × (m : Move) × (act now answer (goes i m) f ≢ none)
  unfolding act
  one_goes f h more = elim (dec_lt 0 f.shared.tokens) [
    | yes held ↦
        let (i, m, possible) =
          first_free holds f.shared (λ s ss. holder_goes f.shared held s.phase s ss) f.slots
            (λ e. absurd (omega (arith, h.counted))) in
        (i, m, moved-ne-none (move_at now answer i m f.slots f.shared) possible)
    | no empty ↦
        let (i, m, possible) =
          first_free waits f.shared (λ s ss. waiter_goes f.shared (omega arith) s.phase s ss)
            f.slots (λ e. absurd (more (omega (arith, h.counted, steps_left-le f.slots)))) in
        (i, m, moved-ne-none (move_at now answer i m f.slots f.shared) possible)
  ]

  module _ (devs : List DeviceInfo) (e : RestMetricsExporter F64 F32 W) (actions : List Action)
      (f : Fetching F64 F32 W)
      (run : run_fetch now answer actions (start_fetch now devs e) ≡ some f) where
    reached-IsBounded : IsBounded f
    unfolding start_fetch
    reached-IsBounded =
        run_fetch_kept now answer IsBounded Step-IsBounded actions (start_fetch now devs e) f run
          (record { counted = start-holds F64 F32 devs; capped = omega arith })

    -- At no time are more than four of the devices' requests under way.
    pub run_fetch-under_way : under_way f.slots ≤ rest_concurrency
    run_fetch-under_way =
        let h = reached-IsBounded in omega (arith, under_way-le f.slots, h.counted, h.capped)

    -- The goroutines of a scrape of n devices take at most 3 n steps, in whichever order, and they cannot
    -- block each other: as long as one has not returned, there is a step that one of them can take, also if the
    -- context never ends.
    pub run_fetch-ends :
        (own_moves actions + steps_left f.slots ≤ 3 * length devs)
        × (steps_left f.slots ≢ 0 → (i : ℕ) × (m : Move) × (act now answer (goes i m) f ≢ none))
    unfolding start_fetch
    run_fetch-ends = (
      omega (
        arith,
        run_fetch_fewer actions (start_fetch now devs e) f run,
        start-steps_left F64 F32 devs,
      ),
      one_goes f reached-IsBounded,
    )
