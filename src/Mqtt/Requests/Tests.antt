-- ===== src/Mqtt/Requests/Tests.antt =====
-- The theorems on pings at concrete ticks.
use go_ecoflow_exporter.Base.{
  ◌+◌, ◌/◌, Text, codes, text_eq, true, false, none, some, [], ◌∷◌, ◌≡◌, refl,
}
use go_ecoflow_exporter.Base.Dict.{Dict, lookup, insert, has, IsUnique}
use go_ecoflow_exporter.Mqtt.Requests.{
  Clock, Sender, Tick, ticks_per_refresh, ping_routine, ping_tick, contact_all, send_rtc_time_ping,
  record_ping,
}
use go_ecoflow_exporter.Mqtt.Requests.Counts.{
  attempts, connected_ticks, new_pings, ping_routine-attempts,
}
use go_ecoflow_exporter.Mqtt.Requests.Refreshes.{refreshes, CanSend, ping_routine-refreshes}
use go_ecoflow_exporter.Telemetry.{new_telemetry}
use go_ecoflow_exporter.Base.{List}
use go_ecoflow_exporter.TestData.{delta_sn}

abbrev noon : Clock
noon = record {
  unix_milli = 1;
  minute = 0;
  day = 1;
  weekday = 4;
  second = 0;
  month = 1;
  hour = 12;
  year = 1970;
}

-- Every publication times out.
abbrev stuck : Sender
stuck = record {
  marshal = λ m. ([], none);
  client = some (λ topic payload. none);
  user_id = codes "42";
}

abbrev up : Tick
up = record { connected = true; now = noon; sender = stuck }

abbrev down : Tick
down = record { connected = false; now = noon; sender = stuck }

abbrev one_device : Dict Text
one_device = (delta_sn, codes "Delta 2") ∷ []

one_device-IsUnique : IsUnique one_device
unfolding lookup
one_device-IsUnique = (refl, tt)

one_device-has : has delta_sn one_device ≡ true
unfolding lookup text_eq
one_device-has = refl

-- Of four connected ticks the third is a refresh.
three_pings :
    attempts delta_sn (ping_routine 3 one_device (up ∷ up ∷ down ∷ up ∷ up ∷ []) (new_pings none))
    ≡ 3
unfolding ping_routine ping_tick contact_all send_rtc_time_ping record_ping lookup insert text_eq
three_pings = refl

ping_routine-attempts_example :
    attempts delta_sn (
        ping_routine
          (ticks_per_refresh 9 3)
          one_device
          (up ∷ up ∷ down ∷ up ∷ up ∷ [])
          (new_pings none))
      + connected_ticks (up ∷ up ∷ down ∷ up ∷ up ∷ []) / ticks_per_refresh 9 3
    ≡ connected_ticks (up ∷ up ∷ down ∷ up ∷ up ∷ [])
ping_routine-attempts_example =
    ping_routine-attempts delta_sn 9 3 one_device (up ∷ up ∷ down ∷ up ∷ up ∷ []) none
      one_device-IsUnique one_device-has

abbrev ticks_with_gap : List Tick
ticks_with_gap = up ∷ up ∷ down ∷ up ∷ up ∷ []

stuck-CanSend : CanSend stuck
stuck-CanSend = (λ m. refl, (λ topic payload. none, refl))

ping_routine-refreshes_example :
    let p =
      ping_routine
        (ticks_per_refresh 9 3)
        one_device
        ticks_with_gap
        (new_pings (some (new_telemetry (codes "1.0")))) in
    (refreshes delta_sn p.telemetry ≡ connected_ticks ticks_with_gap / ticks_per_refresh 9 3)
    × (attempts delta_sn p + connected_ticks ticks_with_gap / ticks_per_refresh 9 3
        ≡ connected_ticks ticks_with_gap)
ping_routine-refreshes_example =
    ping_routine-refreshes delta_sn 9 3 one_device ticks_with_gap (codes "1.0") one_device-IsUnique
      one_device-has
      (
        λ h. stuck-CanSend,
        (λ h. stuck-CanSend, (λ h. stuck-CanSend, (λ h. stuck-CanSend, (λ h. stuck-CanSend, tt)))),
      )
