-- ===== src/Mqtt/Status/Invariant.antt =====
-- mqtt_exporter.go: what holds of the status under every interleaving of the goroutines. Each method
-- holds `statusMu`, so an interleaving is a sequence of their calls.
use go_ecoflow_exporter.Base.{
  ℕ, ◌+◌, ◌≤◌, ◌<◌, min, Text, true, List, ◌≡◌, ◌⊎◌, refl, arith, ltb, leb, inl, inr, All,
  Bool-cases,
}
use go_ecoflow_exporter.Base.Dict.{Dict, lookup, has, IsUnique, insert-IsUnique, lookup-erase}
use go_ecoflow_exporter.Base.Dict.Size.{KeysIn, erase-IsUnique}
use go_ecoflow_exporter.Mqtt.Status.{
  Status, initial, max_reconnect_delay, relogin_after_reconnects, mark_received,
  init_device_statuses, offline_updates_due, reconnect_due, relogin_due,
}
use go_ecoflow_exporter.Mqtt.Status.Fields.{
  has-insert, has-insert_inv, init_last_received-IsUnique, has-init_last_received,
  init_last_received_inv, due_from-IsUnique, due_from_heard, next_delay_capped, next_delay_floored,
}

module _ (devices : Dict Text) (threshold : ℕ) where
  -- One call of a method, by any goroutine: a message of a configured device, a connection, and what the
  -- monitor does. The offline devices are those of some earlier look at the same map, of which no key
  -- is ever deleted.
  pub data Step : Status → Status → Type 0 where
    received :
        (now : ℕ) (sn : Text) (st : Status)
        → has sn devices ≡ true
        → Step st (mark_received now sn st).0
    connected : (now : ℕ) (st : Status) → Step st (init_device_statuses now devices st)
    updates :
        (now : ℕ) (offline : List Text) (st : Status)
        → All (λ sn. has sn st.last_received ≡ true) offline
        → Step st (offline_updates_due now threshold offline st).1
    reconnects : (now : ℕ) (st : Status) → Step st (reconnect_due now threshold st).1
    relogins : (st : Status) → Step st (relogin_due st).1

  pub data Reach : Status → Type 0 where
    start : Reach initial
    next : {st st' : Status} → Reach st → Step st st' → Reach st'

  pub record IsSound (st : Status) : Type 0 where
    pub unique_received : IsUnique st.last_received
    pub unique_sent : IsUnique st.offline_sent
    pub configured : KeysIn st.last_received devices
    pub heard_of : KeysIn st.offline_sent st.last_received
    pub delay_capped : st.reconnect_delay ≤ max_reconnect_delay
    pub delay_floored :
        (st.reconnect_delay ≡ 0) ⊎ (min threshold max_reconnect_delay ≤ st.reconnect_delay)
    pub counter_capped : st.fruitless_reconnects < relogin_after_reconnects

module _ (devices : Dict Text) (threshold : ℕ) where
  pub initial-IsSound : IsSound devices threshold initial
  unfolding lookup
  initial-IsSound = record {
    unique_received = tt;
    unique_sent = tt;
    configured = λ k e. cc;
    heard_of = λ k e. e;
    delay_capped = omega arith;
    delay_floored = inl refl;
    counter_capped = omega arith;
  }

  pub received-IsSound :
      (now : ℕ) (sn : Text) (st : Status)
      → has sn devices ≡ true
      → IsSound devices threshold st
      → IsSound devices threshold (mark_received now sn st).0
  unfolding mark_received
  received-IsSound now sn st known h = record {
    unique_received = insert-IsUnique sn now st.last_received h.unique_received;
    unique_sent = erase-IsUnique sn st.offline_sent h.unique_sent;
    configured =
        λ k e. ground (arith, has-insert_inv sn k now st.last_received, h.configured k, known);
    heard_of = λ k e.
        has-insert sn k now st.last_received
          (h.heard_of k (ground (arith, lookup-erase sn k st.offline_sent)));
    delay_capped = omega arith;
    delay_floored = inl refl;
    counter_capped = omega arith;
  }

  pub connected-IsSound :
      (now : ℕ) (st : Status)
      → IsSound devices threshold st
      → IsSound devices threshold (init_device_statuses now devices st)
  unfolding init_device_statuses
  connected-IsSound now st h = record {
    unique_received = init_last_received-IsUnique now devices st.last_received h.unique_received;
    unique_sent = h.unique_sent;
    configured = λ k e.
        ground (arith, init_last_received_inv now devices st.last_received k e, h.configured k);
    heard_of = λ k e. has-init_last_received now devices st.last_received k (h.heard_of k e);
    delay_capped = h.delay_capped;
    delay_floored = h.delay_floored;
    counter_capped = h.counter_capped;
  }

  pub updates-IsSound :
      (now : ℕ) (offline : List Text) (st : Status)
      → All (λ sn. has sn st.last_received ≡ true) offline
      → IsSound devices threshold st
      → IsSound devices threshold (offline_updates_due now threshold offline st).1
  unfolding offline_updates_due
  updates-IsSound now offline st all h = record {
    unique_received = h.unique_received;
    unique_sent = due_from-IsUnique now threshold offline st.offline_sent h.unique_sent;
    configured = h.configured;
    heard_of = due_from_heard now threshold offline st.offline_sent st.last_received all h.heard_of;
    delay_capped = h.delay_capped;
    delay_floored = h.delay_floored;
    counter_capped = h.counter_capped;
  }

  pub reconnects-IsSound :
      (now : ℕ) (st : Status)
      → IsSound devices threshold st
      → IsSound devices threshold (reconnect_due now threshold st).1
  unfolding reconnect_due
  reconnects-IsSound now st h = elim (Bool-cases (ltb now st.next_reconnect)) [
    | inl e ↦ rw e h
    | inr e ↦ rw e (record {
      unique_received = h.unique_received;
      unique_sent = h.unique_sent;
      configured = h.configured;
      heard_of = h.heard_of;
      delay_capped = next_delay_capped threshold st.reconnect_delay;
      delay_floored = inr (next_delay_floored threshold st.reconnect_delay);
      counter_capped = h.counter_capped;
    })
  ]

  counted :
      (st : Status) (n : ℕ)
      → IsSound devices threshold st
      → n < relogin_after_reconnects
      → IsSound devices threshold (record st { fruitless_reconnects = n })
  counted st n h fits = record {
    unique_received = h.unique_received;
    unique_sent = h.unique_sent;
    configured = h.configured;
    heard_of = h.heard_of;
    delay_capped = h.delay_capped;
    delay_floored = h.delay_floored;
    counter_capped = fits;
  }

  pub relogins-IsSound :
      (st : Status) → IsSound devices threshold st → IsSound devices threshold (relogin_due st).1
  unfolding relogin_due
  relogins-IsSound st h =
      elim (Bool-cases (leb relogin_after_reconnects (st.fruitless_reconnects + 1))) [
        | inl e ↦ rw e (counted st 0 h (omega arith))
        | inr e ↦ rw e (counted st (st.fruitless_reconnects + 1) h (ground arith))
      ]

  -- Under every interleaving of messages, connections and the monitor's calls: only configured devices
  -- are tracked, and an offline update is remembered only for tracked ones; the reconnect delay is 0 or
  -- lies between the threshold (or ten minutes, if less) and ten minutes; and fewer than three forced
  -- reconnects are counted.
  pub Reach-IsSound : {st : Status} → Reach devices threshold st → IsSound devices threshold st
  Reach-IsSound start = initial-IsSound
  Reach-IsSound (next r (received now sn st known)) =
      received-IsSound now sn st known (Reach-IsSound r)
  Reach-IsSound (next r (connected now st)) = connected-IsSound now st (Reach-IsSound r)
  Reach-IsSound (next r (updates now offline st all)) =
      updates-IsSound now offline st all (Reach-IsSound r)
  Reach-IsSound (next r (reconnects now st)) = reconnects-IsSound now st (Reach-IsSound r)
  Reach-IsSound (next r (relogins st)) = relogins-IsSound st (Reach-IsSound r)
