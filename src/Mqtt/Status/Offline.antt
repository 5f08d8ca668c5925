-- ===== src/Mqtt/Status/Offline.antt =====
-- mqtt_exporter.go: `offlineDevices` and the test that all devices are offline.
use go_ecoflow_exporter.Base.{
  ℕ, ◌-◌, ◌<◌, Text, Bool, true, not, some, [], ◌∷◌, ◌≡◌, ◌↔◌, In, refl, sym, ap, ◌∙◌, arith,
  length, inl, inr, Option-cases,
}
use go_ecoflow_exporter.Base.Dict.{
  Dict, lookup, delete_where, has, keys, IsUnique, In-keys, lookup-delete_where,
  delete_where-IsUnique,
}
use go_ecoflow_exporter.Base.Dict.Size.{KeysIn, length-le_of_KeysIn, KeysIn-of_length-eq}
use go_ecoflow_exporter.Mqtt.Status.{Status, is_late, late, offline_devices}

abbrev on_time : ℕ → ℕ → ℕ → Bool
on_time now threshold last = not (is_late now threshold last)

-- The entries of the devices that are late.
abbrev late_entries : ℕ → ℕ → Dict ℕ → Dict ℕ
late_entries now threshold seen = delete_where (on_time now threshold) seen

late-keys :
    (now threshold : ℕ) (seen : Dict ℕ)
    → late now threshold seen ≡ keys (late_entries now threshold seen)
unfolding late keys delete_where
late-keys now threshold [] = refl
late-keys now threshold ((sn, last) ∷ seen) = ground (arith, late-keys now threshold seen)

length-keys : {V : Type 0} (m : Dict V) → length (keys m) ≡ length m
unfolding keys
length-keys [] = refl
length-keys (x ∷ m) = omega (arith, length-keys m)

-- The device was heard of, and not within the threshold.
abbrev pub IsOffline : ℕ → ℕ → Status → Text → Type 0
IsOffline now threshold st sn =
    (last : ℕ) × (lookup sn st.last_received ≡ some last) × (threshold < now - last)

module _ (now threshold : ℕ) (st : Status) (hu : IsUnique st.last_received) where
  late_entry :
      (sn : Text)
      → IsOffline now threshold st sn
      → has sn (late_entries now threshold st.last_received) ≡ true
  late_entry sn (last, l, late) =
      ground (arith, lookup-delete_where (on_time now threshold) sn st.last_received hu, l, late)

  entry_late :
      (sn : Text)
      → has sn (late_entries now threshold st.last_received) ≡ true
      → IsOffline now threshold st sn
  entry_late sn e = elim (Option-cases (lookup sn st.last_received)) [
    | inl l ↦
        absurd
          (ground (arith, lookup-delete_where (on_time now threshold) sn st.last_received hu, l))
    | inr (last, l) ↦ (
      last,
      l,
      ground (arith, lookup-delete_where (on_time now threshold) sn st.last_received hu, l),
    )
  ]

  -- `offlineDevices` returns the devices that were heard of, but not within the threshold, and no others.
  pub offline_devices_exact :
      (sn : Text) → In sn (offline_devices now threshold st) ↔ IsOffline now threshold st sn
  unfolding offline_devices
  offline_devices_exact sn = (
    λ i. entry_late sn (
        (In-keys sn (late_entries now threshold st.last_received)).0
          (rw (late-keys now threshold st.last_received) at i)),
    λ o.
        rw (late-keys now threshold st.last_received)
          ((In-keys sn (late_entries now threshold st.last_received)).1 (late_entry sn o)),
  )

  length-offline_devices :
      length (offline_devices now threshold st)
      ≡ length (late_entries now threshold st.last_received)
  unfolding offline_devices
  length-offline_devices =
      ap (length {A = Text}) (late-keys now threshold st.last_received)
      ∙ length-keys (late_entries now threshold st.last_received)

  module _ (devices : Dict Text) (hd : IsUnique devices)
      (configured : KeysIn st.last_received devices) where
    late_configured : KeysIn (late_entries now threshold st.last_received) devices
    late_configured sn e = let (last, l, _) = entry_late sn e in configured sn (ground (arith, l))

    late-IsUnique : IsUnique (late_entries now threshold st.last_received)
    late-IsUnique = delete_where-IsUnique (on_time now threshold) st.last_received hu

    -- The monitor's test `len(offline) == len(m.devices)` passes exactly if every configured device is
    -- offline, as long as only configured devices were heard of.
    pub all-IsOffline_exact :
        (length (offline_devices now threshold st) ≡ length devices)
        ↔ ((sn : Text) → has sn devices ≡ true → IsOffline now threshold st sn)
    all-IsOffline_exact = (
      λ same sn e. entry_late sn (
          KeysIn-of_length-eq _ devices late-IsUnique hd late_configured
            (sym length-offline_devices ∙ same) sn e),
      λ all. omega (
        arith,
        length-offline_devices,
        length-le_of_KeysIn _ devices late-IsUnique hd late_configured,
        length-le_of_KeysIn devices _ hd late-IsUnique (λ sn e. late_entry sn (all sn e)),
      ),
    )
