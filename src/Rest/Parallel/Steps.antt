-- ===== src/Rest/Parallel/Steps.antt =====
-- rest_exporter.go: the steps of the goroutines of a scrape, as a relation.
use go_ecoflow_exporter.Base.{
  ℕ, zero, suc, ◌+◌, ◌-◌, ◌<◌, Text, true, Option, none, some, List, [], ◌∷◌, ◌≡◌, refl, ltb, arith,
  Option-cases, Bool-cases, inl, inr,
}
use go_ecoflow_exporter.Base.Dict.{Dict}
use go_ecoflow_exporter.Update.{Any}
use go_ecoflow_exporter.Rest.{Answer}
use go_ecoflow_exporter.Rest.Parallel.{
  rest_concurrency, Phase, waiting, fetching, fetched, released, given_up, Slot, Shared, Fetching,
  Move, admits, gives_up, fetches, releases, Action, goes, context_cancelled, fetch_slot, next_to,
  before, move_in, move_at, moved, act, run_fetch,
}

module _ {F64 F32 W : Type 0} (now : ℕ) (answer : Text → Answer (Dict (Any F64 F32))) where
  -- A step of one goroutine.
  pub data MoveOf (s : Slot F64 F32) (g : Shared F64 F32 W)
      : Slot F64 F32 → Shared F64 F32 W → Type 0 where
    admitted :
        s.phase ≡ waiting
        → g.tokens < rest_concurrency
        → MoveOf s g (record s { phase = fetching }) (record g { tokens = g.tokens + 1 })
    gave_up : s.phase ≡ waiting → g.cancelled ≡ true → MoveOf s g (record s { phase = given_up }) g
    did_fetch :
        s.phase ≡ fetching → MoveOf s g (fetch_slot now answer s g).0 (fetch_slot now answer s g).1
    left :
        s.phase ≡ fetched
        → 0 < g.tokens
        → MoveOf s g (record s { phase = released }) (record g { tokens = g.tokens - 1 })

  pub data MoveIn (g g' : Shared F64 F32 W)
      : List (Slot F64 F32) → List (Slot F64 F32) → Type 0 where
    here :
        {s s' : Slot F64 F32} {ss : List (Slot F64 F32)}
        → MoveOf s g s' g'
        → MoveIn g g' (s ∷ ss) (s' ∷ ss)
    there :
        {s : Slot F64 F32} {ss ss' : List (Slot F64 F32)}
        → MoveIn g g' ss ss'
        → MoveIn g g' (s ∷ ss) (s ∷ ss')

  abbrev IsMove :
      List (Slot F64 F32)
      → Shared F64 F32 W
      → Option (List (Slot F64 F32) × Shared F64 F32 W)
      → Type 0
  IsMove ss g none = Unit
  IsMove ss g (some (ss', g')) = MoveIn g g' ss ss'

  move_in-IsMove :
      (phase : Phase) (m : Move) (s : Slot F64 F32) (ss : List (Slot F64 F32))
      (g : Shared F64 F32 W)
      → s.phase ≡ phase
      → IsMove (s ∷ ss) g (before ss (move_in now answer phase m s g))
  move_in-IsMove waiting admits s ss g e = elim (Bool-cases (ltb g.tokens rest_concurrency)) [
    | inl h ↦ rw (h) (here (admitted e (ground arith)))
    | inr h ↦ rw (h) tt
  ]
  move_in-IsMove waiting gives_up s ss g e = elim (Bool-cases g.cancelled) [
    | inl h ↦ rw (h) (here (gave_up e refl))
    | inr h ↦ rw (h) tt
  ]
  move_in-IsMove fetching fetches s ss g e = here (did_fetch e)
  move_in-IsMove fetched releases s ss g e = elim (Bool-cases (ltb 0 g.tokens)) [
    | inl h ↦ rw (h) (here (left e (ground arith)))
    | inr h ↦ rw (h) tt
  ]
  move_in-IsMove phase m s ss g e = tt

  next_to-IsMove :
      (s : Slot F64 F32) (ss : List (Slot F64 F32)) (g : Shared F64 F32 W)
      (r : Option (List (Slot F64 F32) × Shared F64 F32 W))
      → IsMove ss g r
      → IsMove (s ∷ ss) g (next_to s r)
  next_to-IsMove s ss g none h = tt
  next_to-IsMove s ss g (some (ss', g')) h = there h

  move_at-IsMove :
      (i : ℕ) (m : Move) (ss : List (Slot F64 F32)) (g : Shared F64 F32 W)
      → IsMove ss g (move_at now answer i m ss g)
  unfolding move_at
  move_at-IsMove i m [] g = tt
  move_at-IsMove zero m (s ∷ ss) g = move_in-IsMove s.phase m s ss g refl
  move_at-IsMove (suc i) m (s ∷ ss) g =
      next_to-IsMove s ss g (move_at now answer i m ss g) (move_at-IsMove i m ss g)

  -- A step of the scrape: one of a goroutine, or the end of the context.
  pub data Step (f : Fetching F64 F32 W) : Fetching F64 F32 W → Type 0 where
    moves :
        (ss : List (Slot F64 F32)) (g : Shared F64 F32 W)
        → MoveIn f.shared g f.slots ss
        → Step f (record { slots = ss; shared = g })
    cancels : Step f (record f { shared = record f.shared { cancelled = true } })

  abbrev IsStep : Fetching F64 F32 W → Option (Fetching F64 F32 W) → Type 0
  IsStep f none = Unit
  IsStep f (some f') = Step f f'

  moved-IsStep :
      (f : Fetching F64 F32 W) (r : Option (List (Slot F64 F32) × Shared F64 F32 W))
      → IsMove f.slots f.shared r
      → IsStep f (moved now answer r)
  moved-IsStep f none h = tt
  moved-IsStep f (some (ss, g)) h = moves ss g h

  act-IsStep : (a : Action) (f : Fetching F64 F32 W) → IsStep f (act now answer a f)
  unfolding act
  act-IsStep (goes i m) f =
      moved-IsStep f (move_at now answer i m f.slots f.shared) (move_at-IsMove i m f.slots f.shared)
  act-IsStep context_cancelled f = cancels

  pub act-Step : (a : Action) (f f' : Fetching F64 F32 W) → act now answer a f ≡ some f' → Step f f'
  act-Step a f f' e =
      let h : IsStep f (act now answer a f) = act-IsStep a f in
      let h' : IsStep f (some f') = rw (e) at h in h'

  abbrev Went : Fetching F64 F32 W → Option (Fetching F64 F32 W) → Type 0
  Went f none = Unit
  Went f (some f') = MoveIn f.shared f'.shared f.slots f'.slots

  moved-Went :
      (f : Fetching F64 F32 W) (r : Option (List (Slot F64 F32) × Shared F64 F32 W))
      → IsMove f.slots f.shared r
      → Went f (moved now answer r)
  moved-Went f none h = tt
  moved-Went f (some (ss, g)) h = h

  pub act-MoveIn :
      (i : ℕ) (m : Move) (f f' : Fetching F64 F32 W)
      → act now answer (goes i m) f ≡ some f'
      → MoveIn f.shared f'.shared f.slots f'.slots
  unfolding act
  act-MoveIn i m f f' e =
      let h : Went f (act now answer (goes i m) f) =
        moved-Went f (move_at now answer i m f.slots f.shared)
          (move_at-IsMove i m f.slots f.shared) in
      let h' : Went f (some f') = rw (e) at h in h'

  -- What every step keeps holds after any run.
  pub run_fetch_kept :
      (Kept : Fetching F64 F32 W → Type 0)
      → ((f f' : Fetching F64 F32 W) → Step f f' → Kept f → Kept f')
      → (actions : List Action) (f f' : Fetching F64 F32 W)
      → run_fetch now answer actions f ≡ some f'
      → Kept f
      → Kept f'
  unfolding run_fetch
  run_fetch_kept Kept keep [] f f' e h = let same : f ≡ f' = cc in rw (← same) h
  run_fetch_kept Kept keep (a ∷ rest) f f' e h = elim (Option-cases (act now answer a f)) [
    | inl stuck ↦ absurd (cc (rw (run_fetch, stuck) at e))
    | inr (next, went) ↦
        run_fetch_kept Kept keep rest next f' (rw (run_fetch, went) at e)
          (keep f next (act-Step a f next went) h)
  ]
