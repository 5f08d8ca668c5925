-- ===== src/Rest/Parallel/Tests.antt =====
-- The theorems on the goroutines of a scrape at a concrete interleaving.
use go_ecoflow_exporter.Base.{
  ℕ, ◌+◌, ◌*◌, ◌≤◌, Text, codes, text_eq, true, false, none, some, List, [], ◌∷◌, length, ◌≡◌, ◌≢◌,
  refl,
}
use go_ecoflow_exporter.Base.Int.{ℤ, pos}
use go_ecoflow_exporter.Mqtt.Status.{second}
use go_ecoflow_exporter.Telemetry.{rest_request, device_seen}
use go_ecoflow_exporter.Rest.{DeviceInfo, answered, with_answer, fetch_device, scrape}
use go_ecoflow_exporter.Rest.Tests.{rest_exporter, listed_devices, test_answers, always}
use go_ecoflow_exporter.Rest.Parallel.{
  rest_concurrency, released, Slot, Fetching, Move, admits, fetches, releases, Action, goes,
  move_at, act, run_fetch, start_fetch, dispatch_fetched,
}
use go_ecoflow_exporter.Rest.Parallel.Order.{admitted_in, run_fetch-scrape}
use go_ecoflow_exporter.Rest.Parallel.Counts.{own_moves, under_way, steps_left}
use go_ecoflow_exporter.Rest.Parallel.Progress.{run_fetch-under_way, run_fetch-ends}
use go_ecoflow_exporter.Rest.Parallel.Complete.{run_fetch_complete}

-- The last device's request is answered first.
abbrev interleaving : List Action
interleaving =
    goes 2 admits
    ∷ goes 0 admits
    ∷ goes 2 fetches
    ∷ goes 1 admits
    ∷ goes 2 releases
    ∷ goes 1 fetches
    ∷ goes 0 fetches
    ∷ goes 0 releases
    ∷ goes 1 releases
    ∷ []

abbrev returned_slot : DeviceInfo → Slot ℤ ℤ
returned_slot dev = record {
  dev = dev;
  phase = released;
  update = with_answer (5 * second) dev (test_answers dev.sn) rest_exporter;
}

abbrev all_returned : Fetching ℤ ℤ (List Text)
all_returned = record {
  slots =
      returned_slot (record { sn = codes "R331"; online = pos 1 })
      ∷ returned_slot (record { sn = codes "R601"; online = pos 1 })
      ∷ returned_slot (record { sn = codes "DCA1"; online = pos 0 })
      ∷ [];
  shared = record {
    exporter = record rest_exporter { last_success = 5 * second };
    tokens = 0;
    cancelled = false;
  };
}

ran :
    run_fetch
      (5 * second)
      test_answers
      interleaving
      (start_fetch (5 * second) listed_devices rest_exporter)
    ≡ some all_returned
unfolding run_fetch act move_at start_fetch fetch_device text_eq rest_request device_seen
ran = refl

run_fetch-scrape_example :
    dispatch_fetched always all_returned
    ≡ scrape
        (admitted_in all_returned.slots)
        always
        (5 * second)
        (answered listed_devices)
        test_answers
        rest_exporter
run_fetch-scrape_example =
    run_fetch-scrape (5 * second) test_answers always listed_devices rest_exporter interleaving
      all_returned ran

run_fetch_complete_example :
    dispatch_fetched always all_returned
    ≡ scrape (λ i. true) always (5 * second) (answered listed_devices) test_answers rest_exporter
run_fetch_complete_example =
    run_fetch_complete (5 * second) test_answers always listed_devices rest_exporter interleaving
      all_returned ran refl refl

run_fetch-under_way_example : under_way all_returned.slots ≤ rest_concurrency
run_fetch-under_way_example =
    run_fetch-under_way (5 * second) test_answers listed_devices rest_exporter interleaving
      all_returned ran

run_fetch-ends_example :
    (own_moves interleaving + steps_left all_returned.slots ≤ 3 * length listed_devices)
    × (steps_left all_returned.slots ≢ 0
        → (i : ℕ) × (m : Move) × (act (5 * second) test_answers (goes i m) all_returned ≢ none))
run_fetch-ends_example =
    run_fetch-ends (5 * second) test_answers listed_devices rest_exporter interleaving all_returned
      ran
