-- ===== src/Mqtt/Requests/Refreshes.antt =====
-- mqtt_exporter.go: the full-state refreshes of `pingRoutine`, as the telemetry counts them.
use native.Mathlib.Nat.{add-zero, zero-add, zero-div}
use go_ecoflow_exporter.Base.{
  ℕ, ◌+◌, ◌/◌, ◌%◌, ◌<◌, ◌==◌, Text, codes, text_eq, text_eq_iff, Bool, true, false, Option, none,
  some, List, [], ◌∷◌, All, ◌≡◌, refl, ap, ◌∙◌, inl, inr, arith, Bool-cases, if◌then◌else◌,
}
use go_ecoflow_exporter.Base.Dict.{Dict, lookup, has, IsUnique}
use go_ecoflow_exporter.Telemetry.{Telemetry, new_telemetry, success, error, result, mqtt_ping}
use go_ecoflow_exporter.Protobuf.Message.{Bytes}
use go_ecoflow_exporter.Mqtt.Requests.{
  Field, Clock, Sender, Pings, Tick, record_ping, send_rtc_time_ping, publish_ping, quotas_message,
  rtc_time_message, request_latest_quotas, ticks_per_refresh, contact, contact_all, ping_tick,
  ping_routine,
}
use go_ecoflow_exporter.Mqtt.Requests.Counts.{
  attempts, connected_ticks, next_quotient, tick_count-contact_all, new_pings, ping_routine_counts,
  ping_routine-attempts,
}

-- The refreshes of a device that were recorded, whatever came of them.
abbrev pub refreshes : Text → Option Telemetry → ℕ
refreshes sn none = 0
refreshes sn (some t) =
    t.mqtt_pings sn (codes "state_refresh") success + t.mqtt_pings sn (codes "state_refresh") error

-- The sender marshals every message, and has a client.
abbrev pub CanSend : Sender → Type 0
CanSend sender =
    ((message : Dict Field) → (sender.marshal message).1 ≡ none)
    × ((publish : Text → Bytes → Option (Option Text)) × (sender.client ≡ some publish))

unfoldable Shows : Text → ℕ → Option Telemetry → Type 0
Shows j n none = ⊥
Shows j n (some t) = refreshes j (some t) ≡ n

refreshes-of_Shows : (j : Text) (n : ℕ) (o : Option Telemetry) → Shows j n o → refreshes j o ≡ n
unfolding Shows
refreshes-of_Shows j n none h = absurd h
refreshes-of_Shows j n (some t) h = h

kinds_and_results :
    (text_eq (codes "state_refresh") (codes "state_refresh") ≡ true)
    × (text_eq (codes "keepalive") (codes "state_refresh") ≡ false)
    × (text_eq success success ≡ true)
    × (text_eq success error ≡ false)
    × (text_eq error success ≡ false)
    × (text_eq error error ≡ true)
unfolding text_eq
kinds_and_results = (refl, refl, refl, refl, refl, refl)

module _ (j : Text) where
  Shows-of_eq : (n m : ℕ) (o : Option Telemetry) → n ≡ m → Shows j n o → Shows j m o
  Shows-of_eq n m o e h = rw (← e) h

  Shows-refresh :
      (sn : Text) (err : Option Text) (n : ℕ) (o : Option Telemetry)
      → Shows j n o
      → Shows j (n + (if text_eq sn j then 1 else 0)) (mqtt_ping sn (codes "state_refresh") err o)
  unfolding Shows mqtt_ping result
  Shows-refresh sn err n none h = absurd h
  Shows-refresh sn none n (some t) h = ground (arith, h, kinds_and_results)
  Shows-refresh sn (some err) n (some t) h = ground (arith, h, kinds_and_results)

  Shows-keepalive :
      (sn : Text) (err : Option Text) (n : ℕ) (o : Option Telemetry)
      → Shows j n o
      → Shows j n (mqtt_ping sn (codes "keepalive") err o)
  unfolding Shows mqtt_ping
  Shows-keepalive sn err n none h = absurd h
  Shows-keepalive sn err n (some t) h = ground (arith, h, kinds_and_results)

  Shows-recorded :
      (sn : Text) (err : Option Text) (n : ℕ) (p : Pings)
      → Shows j n p.telemetry
      → Shows j n (record_ping sn err p).telemetry
  unfolding record_ping
  Shows-recorded sn none n p h = Shows-keepalive sn none n p.telemetry h
  Shows-recorded sn (some err) n p h = Shows-keepalive sn (some err) n p.telemetry h

  Shows-contact :
      (refresh : Bool) (sender : Sender) (now : Clock) (sn : Text) (n : ℕ) (p : Pings)
      → CanSend sender
      → Shows j n p.telemetry
      → Shows j
          (n + (if refresh then if text_eq sn j then 1 else 0 else 0))
          (contact refresh sender now sn p).telemetry
  unfolding request_latest_quotas send_rtc_time_ping
  Shows-contact true sender now sn n p (marshals, (publish, has_client)) h =
      rw (marshals (quotas_message now), has_client) (Shows-refresh sn _ n p.telemetry h)
  Shows-contact false sender now sn n p can h =
      rw (add-zero n)
        (Shows-recorded sn (publish_ping sender sn (sender.marshal (rtc_time_message now))) n p h)

  Shows-contact_all :
      (refresh : Bool) (sender : Sender) (now : Clock) (devices : Dict Text) (n : ℕ) (p : Pings)
      → CanSend sender
      → IsUnique devices
      → Shows j n p.telemetry
      → Shows j
          (n + (if refresh then if has j devices then 1 else 0 else 0))
          (contact_all refresh sender now devices p).telemetry
  unfolding contact_all lookup
  Shows-contact_all refresh sender now [] n p can unique h =
      Shows-of_eq n _ p.telemetry (ground arith) h
  Shows-contact_all refresh sender now ((sn, name) ∷ devices) n p can (fresh, unique) h =
      let one = if refresh then if text_eq sn j then 1 else 0 else 0 in
      let rest = if refresh then if has j devices then 1 else 0 else 0 in
      Shows-of_eq (n + one + rest) _ _ (ground (arith, text_eq_iff sn j, fresh)) (
        Shows-contact_all refresh sender now devices (n + one) (contact refresh sender now sn p) can
          unique (Shows-contact refresh sender now sn n p can h))

  ping_tick-Shows :
      (per : ℕ) (devices : Dict Text) (tick : Tick) (p : Pings)
      → (tick.connected ≡ true → CanSend tick.sender)
      → IsUnique devices
      → has j devices ≡ true
      → 0 < per
      → Shows j (p.tick_count / per) p.telemetry
      → let p' = ping_tick per devices tick p in Shows j (p'.tick_count / per) p'.telemetry
  unfolding ping_tick
  ping_tick-Shows per devices tick p can unique known positive h =
      let count' = p.tick_count + 1 in
      let p1 = record p { tick_count = count' } in
      let refresh = count' % per == 0 in
      let same = tick_count-contact_all refresh tick.sender tick.now devices p1 in
      elim (Bool-cases tick.connected) [
        | inl e ↦
            rw (e, same)
              (Shows-of_eq _ _ _ (ground (arith, known, next_quotient p.tick_count per positive)) (
                Shows-contact_all refresh tick.sender tick.now devices (p.tick_count / per) p1
                  (can e) unique h))
        | inr e ↦ rw (e) h
      ]

  ping_routine-Shows :
      (per : ℕ) (devices : Dict Text) (ticks : List Tick) (p : Pings)
      → All (λ tick. tick.connected ≡ true → CanSend tick.sender) ticks
      → IsUnique devices
      → has j devices ≡ true
      → 0 < per
      → Shows j (p.tick_count / per) p.telemetry
      → let p' = ping_routine per devices ticks p in Shows j (p'.tick_count / per) p'.telemetry
  unfolding ping_routine
  ping_routine-Shows per devices [] p can unique known positive h = h
  ping_routine-Shows per devices (tick ∷ ticks) p (can, later) unique known positive h =
      ping_routine-Shows per devices ticks (ping_tick per devices tick p) later unique known
        positive (ping_tick-Shows per devices tick p can unique known positive h)

-- With N the state refresh interval divided by the ping interval, but at least 1: at the first n ticks at which the client is
-- connected n / N refreshes of the full state are recorded for each device, one at every N-th, whatever came of them, and
-- n - n / N keepalive pings, one at each other. Ticks without a connection count for nothing.
-- Assumed: the devices' serial numbers are distinct, and at the ticks with a connection there is a
-- client and the messages can be marshalled.
pub ping_routine-refreshes :
    (j : Text) (state_refresh_interval ping_interval : ℕ) (devices : Dict Text) (ticks : List Tick)
    (version : Text)
    → IsUnique devices
    → has j devices ≡ true
    → All (λ tick. tick.connected ≡ true → CanSend tick.sender) ticks
    → let per = ticks_per_refresh state_refresh_interval ping_interval in
      let p = ping_routine per devices ticks (new_pings (some (new_telemetry version))) in
      (refreshes j p.telemetry ≡ connected_ticks ticks / per)
      × (attempts j p + connected_ticks ticks / per ≡ connected_ticks ticks)
unfolding new_telemetry Shows
ping_routine-refreshes j state_refresh_interval ping_interval devices ticks version unique known
      can =
    let per = ticks_per_refresh state_refresh_interval ping_interval in
    let start = new_pings (some (new_telemetry version)) in
    let shown =
      ping_routine-Shows j per devices ticks start can unique known (omega arith)
        (rw (zero-div per) refl) in
    let counted = (ping_routine_counts j per devices ticks start unique known (omega arith)).1 in
    (
      refreshes-of_Shows j _ _ shown ∙ ap (λ n. n / per) (counted ∙ zero-add _),
      ping_routine-attempts j state_refresh_interval ping_interval devices ticks
          (some (new_telemetry version)) unique known,
    )
