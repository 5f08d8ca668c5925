-- ===== src/Config/Devices.antt =====
-- config.go: the devices that `parseDeviceMapping` gives.
use go_ecoflow_exporter.Base.{
  ℕ, Text, text_eq_no, false, Option, none, some, List, [], ◌∷◌, ◌≡◌, refl, arith, inl, inr,
  Bool-cases,
}
use go_ecoflow_exporter.Base.Dict.{
  Dict, lookup, insert, has, IsUnique, insert-IsUnique, lookup-insert,
}
use go_ecoflow_exporter.Config.{
  Library, add_named, add_pretty, add_plain, add_devices, parsed_names, mapping_of,
  parse_device_mapping,
}

-- Serial numbers that can be told apart and stand in a topic.
abbrev pub IsProper : Dict Text → Type 0
IsProper m = IsUnique m × (has [] m ≡ false)

insert-IsProper :
    (c : ℕ) (sn name : Text) (m : Dict Text) → IsProper m → IsProper (insert (c ∷ sn) name m)
insert-IsProper c sn name m (unique, no_empty) = (
  insert-IsUnique (c ∷ sn) name m unique,
  ground (arith, lookup-insert (c ∷ sn) [] name m, text_eq_no (c ∷ sn) [] (λ e. cc e)),
)

module _ (lib : Library) where
  add_named-IsProper :
      (sn name : Text) (m : Dict Text) → IsProper m → IsProper (add_named lib sn name m)
  add_named-IsProper [] name m h = h
  add_named-IsProper (c ∷ sn) name m h = insert-IsProper c sn name m h

  add_plain-IsProper : (sn : Text) (m : Dict Text) → IsProper m → IsProper (add_plain lib sn m)
  add_plain-IsProper [] m h = h
  add_plain-IsProper (c ∷ sn) m h = elim (Bool-cases (has (c ∷ sn) m)) [
    | inl e ↦ rw (IsProper, e) h
    | inr e ↦ rw (IsProper, e) (insert-IsProper c sn (c ∷ sn) m h)
  ]

  add_pretty-IsProper : (parsed m : Dict Text) → IsProper m → IsProper (add_pretty lib parsed m)
  unfolding add_pretty
  add_pretty-IsProper [] m h = h
  add_pretty-IsProper ((sn, name) ∷ parsed) m h =
      add_pretty-IsProper parsed (add_named lib (lib.trim_space sn) name m)
        (add_named-IsProper (lib.trim_space sn) name m h)

  add_devices-IsProper :
      (parts : List Text) (m : Dict Text) → IsProper m → IsProper (add_devices lib parts m)
  unfolding add_devices
  add_devices-IsProper [] m h = h
  add_devices-IsProper (sn ∷ parts) m h =
      add_devices-IsProper parts (add_plain lib (lib.trim_space sn) m)
        (add_plain-IsProper (lib.trim_space sn) m h)

  mapping_of-IsProper :
      (devices : List Text) (parsed : Option (Dict Text)) (m : Dict Text)
      → mapping_of lib devices parsed ≡ some m
      → IsProper m
  mapping_of-IsProper devices none m e = absurd (cc)
  mapping_of-IsProper devices (some parsed) m e =
      let same : m ≡ add_devices lib devices (add_pretty lib parsed []) = cc in
      rw (same) (
        add_devices-IsProper devices (add_pretty lib parsed [])
          (add_pretty-IsProper parsed [] (tt, unfold lookup in refl)))

  -- The devices that are read, from either variable, have distinct serial numbers, none of them empty.
  pub parse_device_mapping-IsProper :
      (pretty_names devices : Text) (m : Dict Text)
      → parse_device_mapping lib pretty_names devices ≡ some m
      → IsProper m
  unfolding parse_device_mapping
  parse_device_mapping-IsProper pretty_names devices m e =
      mapping_of-IsProper _ (parsed_names lib pretty_names) m e
