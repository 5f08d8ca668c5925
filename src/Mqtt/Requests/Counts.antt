-- ===== src/Mqtt/Requests/Counts.antt =====
-- mqtt_exporter.go: how many pings and refreshes the ticks of `pingRoutine` send.
use native.Mathlib.Nat.{
  div-add-mod, mod-lt, mul-add-div, mul-add-mod_self_left, div_self, mod_self, div-eq_of_lt,
  mod-eq_of_lt, zero-div,
}
use go_ecoflow_exporter.Base.{
  ℕ, ◌+◌, ◌*◌, ◌/◌, ◌%◌, ◌<◌, ◌==◌, Text, text_eq, text_eq_iff, Bool, true, false, Option, none,
  some, List, [], ◌∷◌, ◌≡◌, refl, ap, ◌∙◌, inl, inr, arith, Bool-cases, if◌then◌else◌,
}
use go_ecoflow_exporter.Base.Dict.{Dict, lookup, has, lookup-insert, IsUnique}
use go_ecoflow_exporter.Telemetry.{Telemetry}
use go_ecoflow_exporter.Mqtt.Requests.{
  Clock, Sender, Pings, Tick, count, increment, record_ping, send_rtc_time_ping, publish_ping,
  rtc_time_message, ticks_per_refresh, contact, contact_all, ping_tick, ping_routine,
}

-- The pings of a device that were recorded.
abbrev pub attempts : Text → Pings → ℕ
attempts sn p = count sn p.ping_ok + count sn p.ping_failed

count-increment :
    (k j : Text) (m : Dict ℕ) → count j (increment k m) ≡ count j m + (if text_eq k j then 1 else 0)
count-increment k j m = ground (arith, lookup-insert k j (count k m + 1) m, text_eq_iff k j)

module _ (j : Text) where
  attempts-record_ping :
      (sn : Text) (err : Option Text) (p : Pings)
      → attempts j (record_ping sn err p) ≡ attempts j p + (if text_eq sn j then 1 else 0)
  unfolding record_ping
  attempts-record_ping sn none p = omega (arith, count-increment sn j p.ping_ok)
  attempts-record_ping sn (some err) p = omega (arith, count-increment sn j p.ping_failed)

  attempts-contact :
      (refresh : Bool) (sender : Sender) (now : Clock) (sn : Text) (p : Pings)
      → attempts j (contact refresh sender now sn p)
        ≡ attempts j p + (if refresh then 0 else if text_eq sn j then 1 else 0)
  unfolding send_rtc_time_ping
  attempts-contact true sender now sn p = omega arith
  attempts-contact false sender now sn p = attempts-record_ping sn _ p

  attempts-contact_all :
      (refresh : Bool) (sender : Sender) (now : Clock) (devices : Dict Text) (p : Pings)
      → IsUnique devices
      → attempts j (contact_all refresh sender now devices p)
        ≡ attempts j p + (if refresh then 0 else if has j devices then 1 else 0)
  unfolding contact_all lookup
  attempts-contact_all refresh sender now [] p h = ground arith
  attempts-contact_all refresh sender now ((sn, name) ∷ devices) p (fresh, h) = ground (
    arith,
    attempts-contact_all refresh sender now devices (contact refresh sender now sn p) h,
    attempts-contact refresh sender now sn p,
    text_eq_iff sn j,
    fresh,
  )

abbrev pub connected_ticks : List Tick → ℕ
connected_ticks [] = 0
connected_ticks (tick ∷ ticks) = connected_ticks ticks + (if tick.connected then 1 else 0)

-- `r + 1` under the divisor or at it.
last_quotient : (r per : ℕ) → r < per → (r + 1) / per ≡ (if (r + 1) % per == 0 then 1 else 0)
last_quotient r per h = elim (Bool-cases (r + 1 == per)) [
  | inl e ↦
      let same : r + 1 ≡ per = ground arith in
      ground (arith, same, div_self {n = per} (omega arith), mod_self per)
  | inr e ↦
      let less : r + 1 < per = ground arith in ground (arith, div-eq_of_lt less, mod-eq_of_lt less)
]

pub next_quotient :
    (c per : ℕ) → 0 < per → (c + 1) / per ≡ c / per + (if (c + 1) % per == 0 then 1 else 0)
next_quotient c per h =
    let r = c % per in
    let split : c + 1 ≡ per * (c / per) + (r + 1) = omega (arith, div-add-mod c per) in
    let quotient = ap (λ x. x / per) split ∙ mul-add-div h (c / per) (r + 1) in
    let remainder : (c + 1) % per ≡ (r + 1) % per =
      ap (λ x. x % per) split ∙ mul-add-mod_self_left per (c / per) (r + 1) in
    rw (quotient, remainder) (ap (λ x. c / per + x) (last_quotient r per (mod-lt c h)))

tick_count-contact :
    (refresh : Bool) (sender : Sender) (now : Clock) (sn : Text) (p : Pings)
    → (contact refresh sender now sn p).tick_count ≡ p.tick_count
unfolding send_rtc_time_ping record_ping
tick_count-contact true sender now sn p = refl
tick_count-contact false sender now sn p =
    elim (publish_ping sender sn (sender.marshal (rtc_time_message now)))
      as (λ err. (record_ping sn err p).tick_count ≡ p.tick_count) [ none ↦ refl | some err ↦ refl ]

pub tick_count-contact_all :
    (refresh : Bool) (sender : Sender) (now : Clock) (devices : Dict Text) (p : Pings)
    → (contact_all refresh sender now devices p).tick_count ≡ p.tick_count
unfolding contact_all
tick_count-contact_all refresh sender now [] p = refl
tick_count-contact_all refresh sender now ((sn, name) ∷ devices) p =
    tick_count-contact_all refresh sender now devices _ ∙ tick_count-contact refresh sender now sn p

attempts-ping_tick :
    (j : Text) (per : ℕ) (devices : Dict Text) (tick : Tick) (p : Pings)
    → IsUnique devices
    → has j devices ≡ true
    → 0 < per
    → let p' = ping_tick per devices tick p in
      (attempts j p' + p'.tick_count / per + p.tick_count
        ≡ attempts j p + p.tick_count / per + p'.tick_count)
      × (p'.tick_count ≡ p.tick_count + (if tick.connected then 1 else 0))
unfolding ping_tick
attempts-ping_tick j per devices tick p unique known positive =
    let count' = p.tick_count + 1 in
    let p1 = record p { tick_count = count' } in
    let refresh = count' % per == 0 in
    let same = tick_count-contact_all refresh tick.sender tick.now devices p1 in
    let made = attempts-contact_all j refresh tick.sender tick.now devices p1 unique in
    elim (Bool-cases tick.connected) [
      | inl e ↦
          rw (e) (ground (arith, same, made, known, next_quotient p.tick_count per positive), same)
      | inr e ↦ rw (e) (refl, omega arith)
    ]

pub ping_routine_counts :
    (j : Text) (per : ℕ) (devices : Dict Text) (ticks : List Tick) (p : Pings)
    → IsUnique devices
    → has j devices ≡ true
    → 0 < per
    → let p' = ping_routine per devices ticks p in
      (attempts j p' + p'.tick_count / per + p.tick_count
        ≡ attempts j p + p.tick_count / per + p'.tick_count)
      × (p'.tick_count ≡ p.tick_count + connected_ticks ticks)
unfolding ping_routine
ping_routine_counts j per devices [] p unique known positive = (refl, omega arith)
ping_routine_counts j per devices (tick ∷ ticks) p unique known positive =
    let once = attempts-ping_tick j per devices tick p unique known positive in
    let later =
      ping_routine_counts j per devices ticks (ping_tick per devices tick p) unique known
        positive in
    (omega (arith, once.0, later.0), omega (arith, once.1, later.1))

from_zero :
    (made t n per : ℕ) → made + t / per + 0 ≡ 0 + 0 / per + t → t ≡ 0 + n → made + n / per ≡ n
from_zero made t n per e same =
    let same_count : t ≡ n = omega arith in rw (← same_count) (omega (arith, e, zero-div per))

-- What the routine starts with, but for the telemetry.
abbrev pub new_pings : Option Telemetry → Pings
new_pings telemetry = record {
  tick_count = 0;
  ping_ok = [];
  ping_failed = [];
  telemetry = telemetry;
}

-- With N the state refresh interval divided by the ping interval, but at least 1: at the first n ticks at which the client is
-- connected n - n / N keepalive pings of a device are recorded, as successful or as failed, whatever came of
-- them: one at each tick but every N-th. Ticks without a connection count for nothing.
-- Assumed: the devices' serial numbers are distinct.
pub ping_routine-attempts :
    (j : Text) (state_refresh_interval ping_interval : ℕ) (devices : Dict Text) (ticks : List Tick)
    (telemetry : Option Telemetry)
    → IsUnique devices
    → has j devices ≡ true
    → let per = ticks_per_refresh state_refresh_interval ping_interval in
      attempts j (ping_routine per devices ticks (new_pings telemetry))
        + connected_ticks ticks / per
      ≡ connected_ticks ticks
unfolding lookup
ping_routine-attempts j state_refresh_interval ping_interval devices ticks telemetry unique known =
    let per = ticks_per_refresh state_refresh_interval ping_interval in
    let (made, counted) =
      ping_routine_counts j per devices ticks (new_pings telemetry) unique known (omega arith) in
    from_zero (attempts j (ping_routine per devices ticks (new_pings telemetry))) _
      (connected_ticks ticks) per made counted
