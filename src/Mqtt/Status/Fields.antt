-- ===== src/Mqtt/Status/Fields.antt =====
-- mqtt_exporter.go: the maps of the status and the delay, each under the operations that change it.
use go_ecoflow_exporter.Base.{
  ℕ, ◌≤◌, min, Text, text_eq_iff, true, List, [], ◌∷◌, ◌≡◌, ◌⊎◌, arith, inl, inr, All, Bool-cases,
}
use go_ecoflow_exporter.Base.Dict.{
  Dict, lookup, insert, has, IsUnique, insert-IsUnique, lookup-insert,
}
use go_ecoflow_exporter.Base.Dict.Size.{KeysIn}
use go_ecoflow_exporter.Mqtt.Status.{
  max_reconnect_delay, init_last_received, is_due, due_from, next_delay,
}

module _ {V : Type 0} where
  pub has-insert : (k j : Text) (v : V) (m : Dict V) → has j m ≡ true → has j (insert k v m) ≡ true
  has-insert k j v m h = ground (arith, lookup-insert k j v m)

  pub has-insert_inv :
      (k j : Text) (v : V) (m : Dict V) → has j (insert k v m) ≡ true → (k ≡ j) ⊎ (has j m ≡ true)
  has-insert_inv k j v m h = ground (arith, lookup-insert k j v m, text_eq_iff k j)

module _ (now : ℕ) where
  pub init_last_received-IsUnique :
      (ds : Dict Text) (seen : Dict ℕ) → IsUnique seen → IsUnique (init_last_received now ds seen)
  unfolding init_last_received
  init_last_received-IsUnique [] seen h = h
  init_last_received-IsUnique ((sn, name) ∷ ds) seen h = elim (Bool-cases (has sn seen)) [
    | inl e ↦ rw e (init_last_received-IsUnique ds seen h)
    | inr e ↦
        rw e (init_last_received-IsUnique ds (insert sn now seen) (insert-IsUnique sn now seen h))
  ]

  pub has-init_last_received :
      (ds : Dict Text) (seen : Dict ℕ) (k : Text)
      → has k seen ≡ true
      → has k (init_last_received now ds seen) ≡ true
  unfolding init_last_received
  has-init_last_received [] seen k h = h
  has-init_last_received ((sn, name) ∷ ds) seen k h = elim (Bool-cases (has sn seen)) [
    | inl e ↦ rw e (has-init_last_received ds seen k h)
    | inr e ↦ rw e (has-init_last_received ds (insert sn now seen) k (has-insert sn k now seen h))
  ]

  pub init_last_received_inv :
      (ds : Dict Text) (seen : Dict ℕ) (k : Text)
      → has k (init_last_received now ds seen) ≡ true
      → (has k seen ≡ true) ⊎ (has k ds ≡ true)
  unfolding init_last_received lookup
  init_last_received_inv [] seen k h = inl h
  init_last_received_inv ((sn, name) ∷ ds) seen k h = ground (
    arith,
    text_eq_iff sn k,
    init_last_received_inv ds seen k,
    init_last_received_inv ds (insert sn now seen) k,
    has-insert_inv sn k now seen,
  )

module _ (now threshold : ℕ) where
  pub due_from-IsUnique :
      (offline : List Text) (sent : Dict ℕ)
      → IsUnique sent
      → IsUnique (due_from now threshold offline sent).1
  unfolding due_from
  due_from-IsUnique [] sent h = h
  due_from-IsUnique (x ∷ xs) sent h = elim (Bool-cases (is_due now threshold (lookup x sent))) [
    | inl e ↦ rw e (due_from-IsUnique xs (insert x now sent) (insert-IsUnique x now sent h))
    | inr e ↦ rw e (due_from-IsUnique xs sent h)
  ]

  pub due_from_heard :
      (offline : List Text) (sent seen : Dict ℕ)
      → All (λ sn. has sn seen ≡ true) offline
      → KeysIn sent seen
      → KeysIn (due_from now threshold offline sent).1 seen
  unfolding due_from
  due_from_heard [] sent seen all h = h
  due_from_heard (x ∷ xs) sent seen all h =
      elim (Bool-cases (is_due now threshold (lookup x sent))) [
        | inl e ↦ rw e (
            due_from_heard xs (insert x now sent) seen all.1
              (λ k p. ground (arith, has-insert_inv x k now sent, h k, all.0)))
        | inr e ↦ rw e (due_from_heard xs sent seen all.1 h)
      ]

pub next_delay_capped : (threshold delay : ℕ) → next_delay threshold delay ≤ max_reconnect_delay
next_delay_capped threshold delay = omega arith

pub next_delay_floored :
    (threshold delay : ℕ) → min threshold max_reconnect_delay ≤ next_delay threshold delay
next_delay_floored threshold delay = omega arith
