-- ===== src/Rest/Parallel/Counts.antt =====
-- rest_exporter.go: what is counted over the goroutines of a scrape.
use go_ecoflow_exporter.Base.{ℕ, suc, ◌+◌, ◌*◌, ◌≤◌, List, [], ◌∷◌, map, length, ◌≡◌, refl, arith}
use go_ecoflow_exporter.Rest.{DeviceInfo}
use go_ecoflow_exporter.Rest.Parallel.{
  Phase, waiting, fetching, fetched, released, given_up, Slot, Action, goes, context_cancelled,
  new_slot,
}

-- Whether a goroutine has its value in the channel, and how many steps it has before it at most.
abbrev pub holds : Phase → ℕ
holds fetching = 1
holds fetched = 1
holds phase = 0

abbrev pub to_go : Phase → ℕ
to_go waiting = 3
to_go fetching = 2
to_go fetched = 1
to_go phase = 0

abbrev pub requests : Phase → ℕ
requests fetching = 1
requests phase = 0

module _ {F64 F32 : Type 0} where
  abbrev pub sum_of : (Phase → ℕ) → List (Slot F64 F32) → ℕ
  sum_of count [] = 0
  sum_of count (s ∷ ss) = count s.phase + sum_of count ss

  -- How many goroutines are in `fetchDevice`, and how many steps all of them have before them at most.
  abbrev pub under_way : List (Slot F64 F32) → ℕ
  under_way = sum_of requests

  abbrev pub steps_left : List (Slot F64 F32) → ℕ
  steps_left = sum_of to_go

abbrev pub own_moves : List Action → ℕ
own_moves [] = 0
own_moves (goes i m ∷ actions) = suc (own_moves actions)
own_moves (context_cancelled ∷ actions) = own_moves actions

pub own_moves-cons :
    (a : Action) (rest : List Action) → own_moves (a ∷ rest) ≡ own_moves (a ∷ []) + own_moves rest
own_moves-cons (goes i m) rest = omega arith
own_moves-cons context_cancelled rest = omega arith

requests-le-holds : (phase : Phase) → requests phase ≤ holds phase
requests-le-holds waiting = omega arith
requests-le-holds fetching = omega arith
requests-le-holds fetched = omega arith
requests-le-holds released = omega arith
requests-le-holds given_up = omega arith

abbrev pub waits : Phase → ℕ
waits waiting = 1
waits phase = 0

to_go-le : (phase : Phase) → to_go phase ≤ 3 * waits phase + 3 * holds phase
to_go-le waiting = omega arith
to_go-le fetching = omega arith
to_go-le fetched = omega arith
to_go-le released = omega arith
to_go-le given_up = omega arith

module _ (F64 F32 : Type 0) where
  pub start-steps_left :
      (devs : List DeviceInfo)
      → steps_left {F64 = F64} {F32 = F32} (map new_slot devs) ≡ 3 * length devs
  start-steps_left [] = refl
  start-steps_left (dev ∷ devs) = omega (arith, start-steps_left devs)

  pub start-holds :
      (devs : List DeviceInfo) → sum_of {F64 = F64} {F32 = F32} holds (map new_slot devs) ≡ 0
  start-holds [] = refl
  start-holds (dev ∷ devs) = omega (arith, start-holds devs)

module _ {F64 F32 : Type 0} where
  pub under_way-le : (ss : List (Slot F64 F32)) → under_way ss ≤ sum_of holds ss
  under_way-le [] = omega arith
  under_way-le (s ∷ ss) = omega (arith, under_way-le ss, requests-le-holds s.phase)

  pub steps_left-le :
      (ss : List (Slot F64 F32)) → steps_left ss ≤ 3 * sum_of waits ss + 3 * sum_of holds ss
  steps_left-le [] = omega arith
  steps_left-le (s ∷ ss) = omega (arith, steps_left-le ss, to_go-le s.phase)
