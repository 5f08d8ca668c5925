-- ===== src/Mqtt/Status.antt =====
-- mqtt_exporter.go: which devices send data, and when to reconnect or log in again.
-- These are the fields that `statusMu` guards; each method holds the lock from its start to its end, so
-- it is one step. A time is a number of nanoseconds, and the zero time is 0. A nil map reads as an
-- empty one. The program computes `now - last` on times of the monotonic clock; a negative difference
-- fails its tests as 0 does, since the threshold is positive.
pub mod Fields
pub mod Invariant
pub mod Backoff
pub mod Offline
pub mod Updates
mod Tests
use go_ecoflow_exporter.Base.{
  ℕ, ◌+◌, ◌-◌, ◌*◌, min, max, Text, Bool, true, false, not, ◌||◌, Option, none, some, List, [], ◌∷◌,
  ltb, leb, if◌then◌else◌,
}
use go_ecoflow_exporter.Base.Dict.{Dict, lookup, insert, erase, has}

abbrev pub second : ℕ
second = 1_000_000_000

abbrev pub max_reconnect_delay : ℕ
max_reconnect_delay = 600 * second

abbrev pub relogin_after_reconnects : ℕ
relogin_after_reconnects = 3

pub record Status : Type 0 where
  pub last_received : Dict ℕ
  pub offline_sent : Dict ℕ
  pub reconnect_delay : ℕ
  pub next_reconnect : ℕ
  pub fruitless_reconnects : ℕ

abbrev pub initial : Status
initial = record {
  last_received = [];
  offline_sent = [];
  reconnect_delay = 0;
  next_reconnect = 0;
  fruitless_reconnects = 0;
}

-- The new status, and whether the device was considered offline.
unfoldable pub mark_received : ℕ → Text → Status → Status × Bool
mark_received now sn st = (
  record {
    last_received = insert sn now st.last_received;
    offline_sent = erase sn st.offline_sent;
    reconnect_delay = 0;
    next_reconnect = 0;
    fruitless_reconnects = 0;
  },
  has sn st.offline_sent,
)

-- The loop of `initDeviceStatuses` over the configured devices.
unfoldable pub init_last_received : ℕ → Dict Text → Dict ℕ → Dict ℕ
init_last_received now [] seen = seen
init_last_received now ((sn, name) ∷ devices) seen =
    init_last_received now devices (if has sn seen then seen else insert sn now seen)

unfoldable pub init_device_statuses : ℕ → Dict Text → Status → Status
init_device_statuses now devices st = record st {
  last_received = init_last_received now devices st.last_received;
}

-- `time.Since(last) > m.offlineThreshold`
abbrev pub is_late : ℕ → ℕ → ℕ → Bool
is_late now threshold last = ltb threshold (now - last)

unfoldable pub late : ℕ → ℕ → Dict ℕ → List Text
late now threshold [] = []
late now threshold ((sn, last) ∷ seen) =
    let rest = late now threshold seen in if is_late now threshold last then sn ∷ rest else rest

unfoldable pub offline_devices : ℕ → ℕ → Status → List Text
offline_devices now threshold st = late now threshold st.last_received

-- `!sent || now.Sub(last) >= m.offlineThreshold`
unfoldable pub is_due : ℕ → ℕ → Option ℕ → Bool
is_due now threshold none = true
is_due now threshold (some last) = leb threshold (now - last)

-- The loop of `offlineUpdatesDue`: the devices that are due, and the new times.
unfoldable pub due_from : ℕ → ℕ → List Text → Dict ℕ → List Text × Dict ℕ
due_from now threshold [] sent = ([], sent)
due_from now threshold (sn ∷ offline) sent =
    let due = is_due now threshold (lookup sn sent) in
    let (rest, sent') = due_from now threshold offline (if due then insert sn now sent else sent) in
    (if due then sn ∷ rest else rest, sent')

unfoldable pub offline_updates_due : ℕ → ℕ → List Text → Status → List Text × Status
offline_updates_due now threshold offline st =
    let (due, sent) = due_from now threshold offline st.offline_sent in
    (due, record st { offline_sent = sent })

-- `min(max(2*m.reconnectDelay, m.offlineThreshold), maxReconnectDelay)`
abbrev pub next_delay : ℕ → ℕ → ℕ
next_delay threshold delay = min (max (2 * delay) threshold) max_reconnect_delay

unfoldable pub reconnect_due : ℕ → ℕ → Status → Bool × Status
reconnect_due now threshold st =
    if ltb now st.next_reconnect
    then (false, st)
    else let delay = next_delay threshold st.reconnect_delay in
      (true, record st { reconnect_delay = delay; next_reconnect = now + delay })

unfoldable pub relogin_due : Status → Bool × Status
relogin_due st =
    let n = st.fruitless_reconnects + 1 in
    if leb relogin_after_reconnects n
    then (true, record st { fruitless_reconnects = 0 })
    else (false, record st { fruitless_reconnects = n })
