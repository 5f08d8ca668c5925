-- ===== src/Rest/Parallel/Complete.antt =====
-- rest_exporter.go: a scrape that the context's end does not cut short.
use mathlib.Core.Path.{subst}
use go_ecoflow_exporter.Base.{
  ℕ, Text, Bool, true, false, some, List, [], ◌∷◌, map, ◌≡◌, refl, ap, sym, ◌∙◌, arith, All,
}
use go_ecoflow_exporter.Base.Dict.{Dict}
use go_ecoflow_exporter.Update.{Any}
use go_ecoflow_exporter.Rest.{
  DeviceInfo, Answer, answered, RestMetricsExporter, fetch_device, fetch_all, dispatch_updates,
  scrape,
}
use go_ecoflow_exporter.Rest.Parallel.{
  Phase, waiting, fetching, fetched, released, given_up, Slot, Shared, Fetching, Action, run_fetch,
  new_slot, start_fetch, dispatch_fetched,
}
use go_ecoflow_exporter.Rest.Parallel.Steps.{
  MoveOf, admitted, gave_up, did_fetch, left, MoveIn, here, there, Step, moves, cancels,
  run_fetch_kept,
}
use go_ecoflow_exporter.Rest.Parallel.Order.{
  is_fetched, admitted_in, slot_devices, MoveIn-slot_devices, start_slots, run_fetch-scrape,
}
use go_ecoflow_exporter.Rest.Parallel.Counts.{to_go, steps_left}

-- A goroutine that has returned made its request, or saw the context's end.
is_fetched_of_end :
    (phase : Phase) (cancelled : Bool)
    → to_go phase ≡ 0
    → cancelled ≡ false
    → (phase ≡ given_up → cancelled ≡ true)
    → is_fetched phase ≡ true
is_fetched_of_end waiting c e live h = absurd (omega arith)
is_fetched_of_end fetching c e live h = absurd (omega arith)
is_fetched_of_end fetched c e live h = refl
is_fetched_of_end released c e live h = refl
is_fetched_of_end given_up c e live h = absurd (cc (h refl))

module _ {F64 F32 : Type 0} where
  abbrev SawEnd : Bool → Slot F64 F32 → Type 0
  SawEnd cancelled s = s.phase ≡ given_up → cancelled ≡ true

  All-SawEnd_cancelled : (ss : List (Slot F64 F32)) → All (SawEnd true) ss
  All-SawEnd_cancelled [] = tt
  All-SawEnd_cancelled (s ∷ ss) = (λ e. refl, All-SawEnd_cancelled ss)

module _ (F64 F32 : Type 0) where
  new_slots-SawEnd :
      (devs : List DeviceInfo) → All (SawEnd {F64 = F64} {F32 = F32} false) (map new_slot devs)
  new_slots-SawEnd [] = tt
  new_slots-SawEnd (dev ∷ devs) = (λ e. absurd (cc), new_slots-SawEnd devs)

module _ {F64 F32 W : Type 0} (now : ℕ) (answer : Text → Answer (Dict (Any F64 F32))) where
  MoveOf-SawEnd :
      {s : Slot F64 F32} {g : Shared F64 F32 W} {s' : Slot F64 F32} {g' : Shared F64 F32 W}
      → MoveOf now answer s g s' g'
      → SawEnd g'.cancelled s' × (g'.cancelled ≡ g.cancelled)
  MoveOf-SawEnd (admitted h room) = (λ e. absurd (cc), refl)
  MoveOf-SawEnd (gave_up h ended) = (λ e. ended, refl)
  MoveOf-SawEnd (did_fetch h) = (λ e. absurd (cc), refl)
  MoveOf-SawEnd (left h some_left) = (λ e. absurd (cc), refl)

  MoveIn-SawEnd :
      {g g' : Shared F64 F32 W} {ss ss' : List (Slot F64 F32)}
      → MoveIn now answer g g' ss ss'
      → All (SawEnd g.cancelled) ss
      → All (SawEnd g'.cancelled) ss' × (g'.cancelled ≡ g.cancelled)
  MoveIn-SawEnd (here {ss = ss} m) (h, hs) =
      let (saw, same) = MoveOf-SawEnd m in
      ((saw, subst (λ c. All (SawEnd c) ss) (sym same) hs), same)
  MoveIn-SawEnd (there {s = s} m) (h, hs) =
      let (saw, same) = MoveIn-SawEnd m hs in ((subst (λ c. SawEnd c s) (sym same) h, saw), same)

  record IsKept (devs : List DeviceInfo) (f : Fetching F64 F32 W) : Type 0 where
    listed : slot_devices f.slots ≡ devs
    saw : All (SawEnd f.shared.cancelled) f.slots

  Step-IsKept :
      (devs : List DeviceInfo) (f f' : Fetching F64 F32 W)
      → Step now answer f f'
      → IsKept devs f
      → IsKept devs f'
  Step-IsKept devs f f' (moves ss g m) h = record {
    listed = MoveIn-slot_devices now answer m ∙ h.listed;
    saw = (MoveIn-SawEnd m h.saw).0;
  }
  Step-IsKept devs f f' cancels h = record { listed = h.listed; saw = All-SawEnd_cancelled f.slots }

  -- With no place kept back, the tests on the places can be left out.
  fetch_all_admitted :
      (cancelled : Bool) (ss : List (Slot F64 F32)) (e : RestMetricsExporter F64 F32 W)
      → cancelled ≡ false
      → steps_left ss ≡ 0
      → All (SawEnd cancelled) ss
      → fetch_all (admitted_in ss) now (slot_devices ss) answer e
        ≡ fetch_all (λ i. true) now (slot_devices ss) answer e
  unfolding fetch_all
  fetch_all_admitted c [] e live end h = refl
  fetch_all_admitted c (s ∷ ss) e live end (h, hs) =
      let (update, e') = fetch_device now s.dev (answer s.dev.sn) e in
      rw (is_fetched_of_end s.phase c (omega arith) live h)
        (ap (λ p. (update ∷ p.0, p.1)) (fetch_all_admitted c ss e' live (omega arith) hs))

  -- When all goroutines of a scrape have returned and the context has not ended, the scrape has done what it does with
  -- one request after the other for every device of the list, in whichever order the goroutines ran.
  pub run_fetch_complete :
      (live : ℕ → Bool) (devs : List DeviceInfo) (e : RestMetricsExporter F64 F32 W)
      (actions : List Action) (f : Fetching F64 F32 W)
      → run_fetch now answer actions (start_fetch now devs e) ≡ some f
      → steps_left f.slots ≡ 0
      → f.shared.cancelled ≡ false
      → dispatch_fetched live f ≡ scrape (λ i. true) live now (answered devs) answer e
  unfolding start_fetch scrape
  run_fetch_complete live devs e actions f run end not_ended =
      let start = (start_fetch now devs e).shared.exporter in
      let h : IsKept devs f =
        run_fetch_kept now answer (IsKept devs) (Step-IsKept devs) actions (start_fetch now devs e)
          f run
          (record {
            listed = (start_slots now answer devs start).1;
            saw = new_slots-SawEnd F64 F32 devs;
          }) in
      let same = fetch_all_admitted f.shared.cancelled f.slots start not_ended end h.saw in
      run_fetch-scrape now answer live devs e actions f run
      ∙ rw (← h.listed)
          (ap (λ p. record p.1 { world = dispatch_updates live p.0 p.1.handlers p.1.world }) same)
