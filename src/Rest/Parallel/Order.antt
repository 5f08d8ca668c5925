-- ===== src/Rest/Parallel/Order.antt =====
-- rest_exporter.go: that the order of the goroutines of a scrape shows nowhere.
use go_ecoflow_exporter.Base.{
  ℕ, zero, suc, Text, codes, Bool, true, false, none, some, List, [], ◌∷◌, map, ◌≡◌, refl, ap, sym,
  ◌∙◌, inl, inr, All, Bool-cases, if◌then◌else◌,
}
use go_ecoflow_exporter.Base.Dict.{Dict}
use go_ecoflow_exporter.Telemetry.{rest_request, device_seen}
use go_ecoflow_exporter.Telemetry.Order.{
  rest_request_comm, device_seen_comm, device_seen-rest_request,
}
use go_ecoflow_exporter.Update.{Any}
use go_ecoflow_exporter.Rest.{
  DeviceInfo, Answer, answered, refused, RestMetricsExporter, reported_device, with_answer,
  fetch_device, fetch_all, scrape,
}
use go_ecoflow_exporter.Rest.Parallel.{
  dispatch_fetched, start_fetch, Phase, fetched, released, Slot, Shared, Fetching, Action,
  run_fetch, slot_updates, new_slot,
}
use go_ecoflow_exporter.Rest.Parallel.Steps.{
  MoveOf, admitted, gave_up, did_fetch, left, MoveIn, here, there, Step, moves, cancels,
  run_fetch_kept,
}

-- Whether the request was made.
abbrev pub is_fetched : Phase → Bool
is_fetched fetched = true
is_fetched released = true
is_fetched phase = false

module _ {F64 F32 : Type 0} where
  -- The places of the list at which the request was made.
  abbrev pub admitted_in : List (Slot F64 F32) → ℕ → Bool
  admitted_in [] i = false
  admitted_in (s ∷ ss) zero = is_fetched s.phase
  admitted_in (s ∷ ss) (suc i) = admitted_in ss i

  abbrev pub slot_devices : List (Slot F64 F32) → List DeviceInfo
  slot_devices [] = []
  slot_devices (s ∷ ss) = s.dev ∷ slot_devices ss

module _ {F64 F32 W : Type 0} (now : ℕ) (answer : Text → Answer (Dict (Any F64 F32))) where
  abbrev pub fetched_by : DeviceInfo → RestMetricsExporter F64 F32 W → RestMetricsExporter F64 F32 W
  fetched_by dev e = (fetch_device now dev (answer dev.sn) e).1

  fetch_device_comm :
      (a b : DeviceInfo) (x y : Answer (Dict (Any F64 F32))) (e : RestMetricsExporter F64 F32 W)
      → (fetch_device now a x (fetch_device now b y e).1).1
        ≡ (fetch_device now b y (fetch_device now a x e).1).1
  unfolding fetch_device
  fetch_device_comm a b (answered x) (answered y) e =
      let quota = codes "device_quota" in
      let t = rest_request quota none e.telemetry in
      let seen_a = device_seen now (reported_device a e) in
      let seen_b = device_seen now (reported_device b e) in
      ap (λ r. record e { telemetry = r })
        (ap seen_a (sym (device_seen-rest_request now (reported_device b e) quota none t))
          ∙ device_seen_comm now (reported_device a e) (reported_device b e)
              (rest_request quota none t)
          ∙ ap seen_b (device_seen-rest_request now (reported_device a e) quota none t))
  fetch_device_comm a b (answered x) (refused err) e =
      let quota = codes "device_quota" in
      ap (λ r. record e { telemetry = r })
        (ap (device_seen now (reported_device a e))
            (rest_request_comm quota none (some err) e.telemetry)
          ∙ device_seen-rest_request now (reported_device a e) quota (some err)
              (rest_request quota none e.telemetry))
  fetch_device_comm a b (refused err) (answered y) e =
      let quota = codes "device_quota" in
      ap (λ r. record e { telemetry = r })
        (sym (
            device_seen-rest_request now (reported_device b e) quota (some err)
              (rest_request quota none e.telemetry))
          ∙ ap (device_seen now (reported_device b e))
              (rest_request_comm quota (some err) none e.telemetry))
  fetch_device_comm a b (refused err) (refused err') e =
      ap (λ r. record e { telemetry = r })
        (rest_request_comm (codes "device_quota") (some err) (some err') e.telemetry)

  -- The exporter after the requests that were made, in the order of the list.
  abbrev pub replayed :
      List (Slot F64 F32) → RestMetricsExporter F64 F32 W → RestMetricsExporter F64 F32 W
  replayed [] e = e
  replayed (s ∷ ss) e = replayed ss (if is_fetched s.phase then fetched_by s.dev e else e)

  replayed-fetched_by :
      (dev : DeviceInfo) (ss : List (Slot F64 F32)) (e : RestMetricsExporter F64 F32 W)
      → replayed ss (fetched_by dev e) ≡ fetched_by dev (replayed ss e)
  replayed-fetched_by dev [] e = refl
  replayed-fetched_by dev (s ∷ ss) e = elim (Bool-cases (is_fetched s.phase)) [
    | inl h ↦ rw (h) (
        ap (replayed ss) (fetch_device_comm s.dev dev (answer s.dev.sn) (answer dev.sn) e)
        ∙ replayed-fetched_by dev ss (fetched_by s.dev e))
    | inr h ↦ rw (h) (replayed-fetched_by dev ss e)
  ]

  -- What the place of a goroutine holds.
  abbrev pub IsFilled : RestMetricsExporter F64 F32 W → Slot F64 F32 → Type 0
  IsFilled e s =
      s.update ≡ (if is_fetched s.phase then with_answer now s.dev (answer s.dev.sn) e else none)

  with_answer-mapping :
      (dev : DeviceInfo) (a : Answer (Dict (Any F64 F32))) (e e' : RestMetricsExporter F64 F32 W)
      → e.mapping ≡ e'.mapping
      → with_answer now dev a e ≡ with_answer now dev a e'
  with_answer-mapping dev (answered params) e e' h = rw (h) refl
  with_answer-mapping dev (refused err) e e' h = rw (h) refl

  module _ (e : RestMetricsExporter F64 F32 W) where
    MoveOf-replayed :
        (x : RestMetricsExporter F64 F32 W) (ss : List (Slot F64 F32)) {s : Slot F64 F32}
        {g : Shared F64 F32 W} {s' : Slot F64 F32} {g' : Shared F64 F32 W}
        → MoveOf now answer s g s' g'
        → replayed (s ∷ ss) x ≡ g.exporter
        → replayed (s' ∷ ss) x ≡ g'.exporter
    MoveOf-replayed x ss (admitted h room) r = rw (h) at r
    MoveOf-replayed x ss (gave_up h ended) r = rw (h) at r
    MoveOf-replayed x ss {s = s} (did_fetch h) r =
        replayed-fetched_by s.dev ss x ∙ ap (fetched_by s.dev) (rw (h) at r)
    MoveOf-replayed x ss (left h some_left) r = rw (h) at r

    MoveIn-replayed :
        {g g' : Shared F64 F32 W} {ss ss' : List (Slot F64 F32)}
        → MoveIn now answer g g' ss ss'
        → (x : RestMetricsExporter F64 F32 W) → replayed ss x ≡ g.exporter
        → replayed ss' x ≡ g'.exporter
    MoveIn-replayed (here {ss = ss} m) x r = MoveOf-replayed x ss m r
    MoveIn-replayed (there {s = s} m) x r =
        MoveIn-replayed m (if is_fetched s.phase then fetched_by s.dev x else x) r

    MoveOf-IsFilled :
        {s : Slot F64 F32} {g : Shared F64 F32 W} {s' : Slot F64 F32} {g' : Shared F64 F32 W}
        → MoveOf now answer s g s' g'
        → g.exporter.mapping ≡ e.mapping
        → IsFilled e s
        → IsFilled e s' × (g'.exporter.mapping ≡ e.mapping)
    unfolding fetch_device
    MoveOf-IsFilled (admitted h room) same f = (rw (h) at f, same)
    MoveOf-IsFilled (gave_up h ended) same f = (rw (h) at f, same)
    MoveOf-IsFilled {s = s} {g = g} (did_fetch h) same f =
        (with_answer-mapping s.dev (answer s.dev.sn) g.exporter e same, same)
    MoveOf-IsFilled (left h some_left) same f = (rw (h) at f, same)

    MoveIn-IsFilled :
        {g g' : Shared F64 F32 W} {ss ss' : List (Slot F64 F32)}
        → MoveIn now answer g g' ss ss'
        → g.exporter.mapping ≡ e.mapping
        → All (IsFilled e) ss
        → All (IsFilled e) ss' × (g'.exporter.mapping ≡ e.mapping)
    MoveIn-IsFilled (here m) same (f, fs) =
        let (f', same') = MoveOf-IsFilled m same f in ((f', fs), same')
    MoveIn-IsFilled (there m) same (f, fs) =
        let (fs', same') = MoveIn-IsFilled m same fs in ((f, fs'), same')

  MoveOf-dev :
      {s : Slot F64 F32} {g : Shared F64 F32 W} {s' : Slot F64 F32} {g' : Shared F64 F32 W}
      → MoveOf now answer s g s' g'
      → s'.dev ≡ s.dev
  MoveOf-dev (admitted h room) = refl
  MoveOf-dev (gave_up h ended) = refl
  MoveOf-dev (did_fetch h) = refl
  MoveOf-dev (left h some_left) = refl

  pub MoveIn-slot_devices :
      {g g' : Shared F64 F32 W} {ss ss' : List (Slot F64 F32)}
      → MoveIn now answer g g' ss ss'
      → slot_devices ss' ≡ slot_devices ss
  MoveIn-slot_devices (here {ss = ss} m) = ap (λ dev. dev ∷ slot_devices ss) (MoveOf-dev m)
  MoveIn-slot_devices (there {s = s} m) = ap (λ devs. s.dev ∷ devs) (MoveIn-slot_devices m)

  -- What was fetched is what one request after the other would have got.
  record IsOrderly (devs : List DeviceInfo) (e : RestMetricsExporter F64 F32 W)
      (f : Fetching F64 F32 W) : Type 0 where
    in_order : replayed f.slots e ≡ f.shared.exporter
    filled : All (IsFilled e) f.slots
    named : f.shared.exporter.mapping ≡ e.mapping
    listed : slot_devices f.slots ≡ devs

  Step-IsOrderly :
      (devs : List DeviceInfo) (e : RestMetricsExporter F64 F32 W) (f f' : Fetching F64 F32 W)
      → Step now answer f f'
      → IsOrderly devs e f
      → IsOrderly devs e f'
  Step-IsOrderly devs e f f' (moves ss g m) h =
      let (filled, named) = MoveIn-IsFilled e m h.named h.filled in
      record {
        in_order = MoveIn-replayed e m e h.in_order;
        filled = filled;
        named = named;
        listed = MoveIn-slot_devices m ∙ h.listed;
      }
  Step-IsOrderly devs e f f' cancels h = record {
    in_order = h.in_order;
    filled = h.filled;
    named = h.named;
    listed = h.listed;
  }

  fetch_all-replayed :
      (ss : List (Slot F64 F32)) (e e' : RestMetricsExporter F64 F32 W)
      → e'.mapping ≡ e.mapping
      → All (IsFilled e) ss
      → fetch_all (admitted_in ss) now (slot_devices ss) answer e'
        ≡ (slot_updates ss, replayed ss e')
  unfolding fetch_all fetch_device
  fetch_all-replayed [] e e' same f = refl
  fetch_all-replayed (s ∷ ss) e e' same (f, fs) = elim (Bool-cases (is_fetched s.phase)) [
    | inl h ↦
        let e1 = fetched_by s.dev e' in
        let update = with_answer now s.dev (answer s.dev.sn) e' in
        let same_update : update ≡ s.update =
          with_answer-mapping s.dev (answer s.dev.sn) e' e same ∙ sym (rw (h) at f) in
        rw (h) (
          ap (λ p. (update ∷ p.0, p.1)) (fetch_all-replayed ss e e1 same fs)
          ∙ ap (λ v. (v ∷ slot_updates ss, replayed ss e1)) same_update)
    | inr h ↦
        let empty : none ≡ s.update = sym (rw (h) at f) in
        rw (h) (
          ap (λ p. (none ∷ p.0, p.1)) (fetch_all-replayed ss e e' same fs)
          ∙ ap (λ v. (v ∷ slot_updates ss, replayed ss e')) empty)
  ]

  pub start_slots :
      (devs : List DeviceInfo) (e : RestMetricsExporter F64 F32 W)
      → let ss : List (Slot F64 F32) = map new_slot devs in
        All (IsFilled e) ss × (slot_devices ss ≡ devs) × (replayed ss e ≡ e)
  start_slots [] e = (tt, refl, refl)
  start_slots (dev ∷ devs) e =
      let (filled, listed, same) = start_slots devs e in
      ((refl, filled), ap (λ ds. dev ∷ ds) listed, same)

  -- Under every interleaving of the goroutines that fetch the devices of a list, and wherever the context ends, the updates
  -- that are dispatched, and the exporter with its counters, are those of one request after the other in the order of
  -- the list, for the devices whose requests were made.
  pub run_fetch-scrape :
      (live : ℕ → Bool) (devs : List DeviceInfo) (e : RestMetricsExporter F64 F32 W)
      (actions : List Action) (f : Fetching F64 F32 W)
      → run_fetch now answer actions (start_fetch now devs e) ≡ some f
      → dispatch_fetched live f ≡ scrape (admitted_in f.slots) live now (answered devs) answer e
  unfolding start_fetch dispatch_fetched scrape
  run_fetch-scrape live devs e actions f run =
      let start = (start_fetch now devs e).shared.exporter in
      let (filled, listed, same) = start_slots devs start in
      let h : IsOrderly devs start f =
        run_fetch_kept now answer (IsOrderly devs start) (Step-IsOrderly devs start) actions
          (start_fetch now devs e) f run
          (record { in_order = same; filled = filled; named = refl; listed = listed }) in
      let fetched_all = fetch_all-replayed f.slots start start refl h.filled in
      rw (← h.listed, fetched_all, h.in_order) refl
