-- ===== src/Mqtt/Monitor.antt =====
-- mqtt_exporter.go: one round of `monitorDeviceStatus`, from the ticker's event to the request of a reconnect or of
-- a login. The round reads the clock once here; its methods read it one after the other.
mod Tests
use go_ecoflow_exporter.Base.{
  ℕ, ◌<◌, ◌≤◌, ◌==◌, Text, Bool, true, false, ◌&&◌, Option, none, some, List, [], ◌∷◌, ◌≡◌, ◌≢◌,
  ◌↔◌, refl, sym, ap, ◌∙◌, inl, inr, Bool-cases, ltb, length, arith, if◌then◌else◌,
}
use go_ecoflow_exporter.Base.Int.{ℤ, pos}
use go_ecoflow_exporter.Base.Dict.{Dict, has, IsUnique}
use go_ecoflow_exporter.Update.{
  EcoflowDevice, Any, DeviceUpdate, get_device_name, new_device_update, MetricHandler, dispatch,
}
use go_ecoflow_exporter.Mqtt.Status.{
  Status, offline_devices, offline_updates_due, reconnect_due, relogin_due,
}
use go_ecoflow_exporter.Mqtt.Status.Invariant.{IsSound}
use go_ecoflow_exporter.Mqtt.Status.Offline.{IsOffline, all-IsOffline_exact}
use go_ecoflow_exporter.Mqtt.Handler.{MqttMetricsExporter}

-- What the round does about the connection.
pub data Action : Type 0 where
  leave force_reconnect request_relogin : Action

abbrev pub with_relogin : Bool × Status → Action × Status
with_relogin (true, st) = (request_relogin, st)
with_relogin (false, st) = (force_reconnect, st)

abbrev pub with_reconnect : Bool × Status → Action × Status
with_reconnect (true, st) = with_relogin (relogin_due st)
with_reconnect (false, st) = (leave, st)

-- The test of the round, evaluated from left to right, and the choice after it.
unfoldable pub check_connection : ℕ → ℕ → Dict Text → List Text → Status → Action × Status
check_connection now threshold devices offline st =
    if ltb 0 (length offline) && length offline == length devices
    then with_reconnect (reconnect_due now threshold st)
    else (leave, st)

module _ {F64 F32 W : Type 0} where
  -- The loop over the offline updates that are due.
  unfoldable pub send_offline :
      ℕ → Dict Text → List (MetricHandler W (DeviceUpdate F64 F32)) → List Text → W → W
  send_offline now devices handlers [] w = w
  send_offline now devices handlers (sn ∷ due) w =
      let device : EcoflowDevice = record {
        sn = sn;
        name = get_device_name devices sn;
        online = pos 0;
      } in
      send_offline now devices handlers due
        ((dispatch handlers (new_device_update now device []) w).2)

  unfoldable pub monitor_round :
      Bool → ℕ → ℕ → MqttMetricsExporter F64 F32 W → MqttMetricsExporter F64 F32 W × Action
  monitor_round false now threshold m = (m, leave)
  monitor_round true now threshold m =
      let offline = offline_devices now threshold m.status in
      let (due, st) = offline_updates_due now threshold offline m.status in
      let (action, st') = check_connection now threshold m.devices offline st in
      (record m { status = st'; world = send_offline now m.devices m.handlers due m.world }, action)

acts_case : (b : Bool × Status) → (with_reconnect b).0 ≢ leave → b.0 ≡ true
acts_case (true, st) h = refl
acts_case (false, st) h = absurd (h refl)

relogin_acts : (b : Bool × Status) → (with_relogin b).0 ≢ leave
relogin_acts (true, st) = λ e. absurd (cc)
relogin_acts (false, st) = λ e. absurd (cc)

reconnect_acts : (b : Bool × Status) → b.0 ≡ true → (with_reconnect b).0 ≢ leave
reconnect_acts (true, st) h = relogin_acts (relogin_due st)
reconnect_acts (false, st) h = absurd (cc)

reconnect_due_iff :
    (now threshold : ℕ) (st : Status)
    → ((reconnect_due now threshold st).0 ≡ true) ↔ (st.next_reconnect ≤ now)
unfolding reconnect_due
reconnect_due_iff now threshold st = ground arith

check_connection_acts :
    (now threshold : ℕ) (devices : Dict Text) (offline : List Text) (st : Status)
    → ((check_connection now threshold devices offline st).0 ≢ leave)
      ↔ ((0 < length devices) × (length offline ≡ length devices) × (st.next_reconnect ≤ now))
unfolding check_connection
check_connection_acts now threshold devices offline st =
    elim (Bool-cases (ltb 0 (length offline) && length offline == length devices)) [
      | inl passes ↦ rw (passes) (
        λ acts. (
          ground arith,
          ground arith,
          (reconnect_due_iff now threshold st).0 (acts_case (reconnect_due now threshold st) acts),
        ),
        λ (some_device, all, due).
            reconnect_acts (reconnect_due now threshold st)
              ((reconnect_due_iff now threshold st).1 due),
      )
      | inr fails ↦
          rw (fails) (λ acts. absurd (acts refl), λ (some_device, all, due). absurd (ground arith))
    ]

-- A round of the monitor on a connected client reconnects or asks for a login exactly if there is a
-- device, every configured device is offline and the time of the next reconnect has come. Assumed: the
-- configured serial numbers are distinct and the status is sound.
pub monitor_round_acts :
    {F64 F32 W : Type 0} (now threshold : ℕ) (m : MqttMetricsExporter F64 F32 W)
    → IsUnique m.devices
    → IsSound m.devices threshold m.status
    → ((monitor_round true now threshold m).1 ≢ leave) ↔ (
        (0 < length m.devices)
        × ((sn : Text) → has sn m.devices ≡ true → IsOffline now threshold m.status sn)
        × (m.status.next_reconnect ≤ now))
unfolding monitor_round offline_updates_due
monitor_round_acts now threshold m unique sound =
    let all =
      all-IsOffline_exact now threshold m.status sound.unique_received m.devices unique
        sound.configured in
    let st =
      (offline_updates_due now threshold (offline_devices now threshold m.status) m.status).1 in
    let acts =
      check_connection_acts now threshold m.devices (offline_devices now threshold m.status) st in
    (
      λ h. let (some_device, same, due) = acts.0 h in (some_device, all.0 same, due),
      λ (some_device, offline, due). acts.1 (some_device, all.1 offline, due),
    )
