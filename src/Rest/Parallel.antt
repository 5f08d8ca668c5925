-- ===== src/Rest/Parallel.antt =====
-- rest_exporter.go: the goroutines of `scrape` that fetch the devices, with the channel that limits how many do so at
-- once. A goroutine is a slot with its device and its place of `updates`; each step is one of a goroutine, or the end of
-- the context. The clock is read once per scrape, and the API's answers are given.
pub mod Steps
pub mod Order
pub mod Counts
pub mod Progress
pub mod Complete
mod Tests
use go_ecoflow_exporter.Base.{
  ℕ, zero, suc, ◌+◌, ◌-◌, Text, codes, Bool, true, false, Option, none, some, List, [], ◌∷◌, map,
  ltb, if◌then◌else◌,
}
use go_ecoflow_exporter.Base.Dict.{Dict}
use go_ecoflow_exporter.Telemetry.{rest_request}
use go_ecoflow_exporter.Update.{Any, DeviceUpdate}
use go_ecoflow_exporter.Rest.{
  DeviceInfo, Answer, RestMetricsExporter, fetch_device, dispatch_updates,
}

-- restConcurrency
abbrev pub rest_concurrency : ℕ
rest_concurrency = 4

-- Where a goroutine is: before the select, behind its send to the channel, behind `fetchDevice`, behind the deferred
-- receive, or returned because of the context's end.
pub data Phase : Type 0 where
  waiting fetching fetched released given_up : Phase

pub record Slot (F64 F32 : Type 0) : Type 0 where
  pub dev : DeviceInfo
  pub phase : Phase
  pub update : Option (DeviceUpdate F64 F32)

-- What the goroutines share. `tokens` is the number of values in the channel.
pub record Shared (F64 F32 W : Type 0) : Type 0 where
  pub exporter : RestMetricsExporter F64 F32 W
  pub tokens : ℕ
  pub cancelled : Bool

pub record Fetching (F64 F32 W : Type 0) : Type 0 where
  pub slots : List (Slot F64 F32)
  pub shared : Shared F64 F32 W

-- The steps of a goroutine: the two cases of its select, the request, and the deferred receive.
pub data Move : Type 0 where
  admits gives_up fetches releases : Move

pub data Action : Type 0 where
  goes : ℕ → Move → Action
  context_cancelled : Action

module _ {F64 F32 : Type 0} where
  abbrev pub new_slot : DeviceInfo → Slot F64 F32
  new_slot dev = record { dev = dev; phase = waiting; update = none }

  abbrev pub slot_updates : List (Slot F64 F32) → List (Option (DeviceUpdate F64 F32))
  slot_updates [] = []
  slot_updates (s ∷ ss) = s.update ∷ slot_updates ss

module _ {F64 F32 W : Type 0} where
  abbrev next_to :
      Slot F64 F32
      → Option (List (Slot F64 F32) × Shared F64 F32 W)
      → Option (List (Slot F64 F32) × Shared F64 F32 W)
  next_to s none = none
  next_to s (some (ss, g)) = some (s ∷ ss, g)

  abbrev before :
      List (Slot F64 F32)
      → Option (Slot F64 F32 × Shared F64 F32 W)
      → Option (List (Slot F64 F32) × Shared F64 F32 W)
  before ss none = none
  before ss (some (s, g)) = some (s ∷ ss, g)

  module _ (now : ℕ) (answer : Text → Answer (Dict (Any F64 F32))) where
    abbrev pub fetch_slot : Slot F64 F32 → Shared F64 F32 W → Slot F64 F32 × Shared F64 F32 W
    fetch_slot s g =
        let (update, e) = fetch_device now s.dev (answer s.dev.sn) g.exporter in
        (record s { phase = fetched; update = update }, record g { exporter = e })

    -- A step in a phase, `none` where it is not possible: a send waits while the channel is full, a
    -- receive while it is empty.
    abbrev pub move_in :
        Phase → Move → Slot F64 F32 → Shared F64 F32 W → Option (Slot F64 F32 × Shared F64 F32 W)
    move_in waiting admits s g =
        if ltb g.tokens rest_concurrency
        then some (record s { phase = fetching }, record g { tokens = g.tokens + 1 })
        else none
    move_in waiting gives_up s g =
        if g.cancelled then some (record s { phase = given_up }, g) else none
    move_in fetching fetches s g = some (fetch_slot s g)
    move_in fetched releases s g =
        if ltb 0 g.tokens
        then some (record s { phase = released }, record g { tokens = g.tokens - 1 })
        else none
    move_in phase m s g = none

    unfoldable pub move_at :
        ℕ
        → Move
        → List (Slot F64 F32)
        → Shared F64 F32 W
        → Option (List (Slot F64 F32) × Shared F64 F32 W)
    move_at i m [] g = none
    move_at zero m (s ∷ ss) g = before ss (move_in s.phase m s g)
    move_at (suc i) m (s ∷ ss) g = next_to s (move_at i m ss g)

    abbrev moved : Option (List (Slot F64 F32) × Shared F64 F32 W) → Option (Fetching F64 F32 W)
    moved none = none
    moved (some (ss, g)) = some (record { slots = ss; shared = g })

    unfoldable pub act : Action → Fetching F64 F32 W → Option (Fetching F64 F32 W)
    act (goes i m) f = moved (move_at i m f.slots f.shared)
    act context_cancelled f = some (record f { shared = record f.shared { cancelled = true } })

    unfoldable pub run_fetch : List Action → Fetching F64 F32 W → Option (Fetching F64 F32 W)
    run_fetch [] f = some f
    run_fetch (a ∷ rest) f = elim (act a f) [ none ↦ none | some f' ↦ run_fetch rest f' ]

  -- The goroutines have been started, for a list that was got.
  unfoldable pub start_fetch :
      ℕ → List DeviceInfo → RestMetricsExporter F64 F32 W → Fetching F64 F32 W
  start_fetch now devs e = record {
    slots = map new_slot devs;
    shared = record {
      exporter = record e {
        telemetry = rest_request (codes "device_list") none e.telemetry;
        last_success = now;
      };
      tokens = 0;
      cancelled = false;
    };
  }

  -- The loop behind `wg.Wait`.
  unfoldable pub dispatch_fetched : (ℕ → Bool) → Fetching F64 F32 W → RestMetricsExporter F64 F32 W
  dispatch_fetched live f =
      let e = f.shared.exporter in
      record e { world = dispatch_updates live (slot_updates f.slots) e.handlers e.world }
