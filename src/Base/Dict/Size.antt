-- ===== src/Base/Dict/Size.antt =====
-- The number of entries of a map, and maps whose keys lie in another's.
use go_ecoflow_exporter.Base.Tests.{Bool-cases}
use go_ecoflow_exporter.Base.Texts.{Text, text_eq, text_eq_iff, text_eq_refl, text_eq_sym}
use go_ecoflow_exporter.Base.Lists.{length}
use go_ecoflow_exporter.Base.Dict.{Dict, lookup, erase, has, IsUnique, lookup-erase}
use Prim.Native.Nat.{suc, ◌≤◌}
use mathlib.Core.Path.{◌≡◌, refl}
use mathlib.Core.Logic.{inl, inr}
use mathlib.Core.Bool.{true}
use mathlib.Core.Option.{none}
use mathlib.Core.List.{[], ◌∷◌}
use native.Mathlib.Omega.{arith}

module _ {V : Type 0} where
  has_head : (k : Text) (v : V) (m : Dict V) → has k ((k, v) ∷ m) ≡ true
  unfolding lookup
  has_head k v m = ground (arith, text_eq_refl k)

  pub erase-IsUnique : (k : Text) (m : Dict V) → IsUnique m → IsUnique (erase k m)
  unfolding erase
  erase-IsUnique k [] h = h
  erase-IsUnique k ((j, w) ∷ m) h = elim (Bool-cases (text_eq j k)) [
    | inl e ↦ rw e (erase-IsUnique k m h.1)
    | inr e ↦ rw e (rw (lookup-erase k j m, text_eq_sym k j, e) h.0, erase-IsUnique k m h.1)
  ]

  erase_absent : (k : Text) (m : Dict V) → lookup k m ≡ none → erase k m ≡ m
  unfolding erase lookup
  erase_absent k [] h = refl
  erase_absent k ((j, w) ∷ m) h = ground (arith, erase_absent k m)

  length-erase :
      (k : Text) (m : Dict V) → IsUnique m → has k m ≡ true → length m ≡ suc (length (erase k m))
  unfolding erase lookup
  length-erase k [] h e = cc
  length-erase k ((j, w) ∷ m) h e =
      ground (arith, length-erase k m h.1, text_eq_iff j k, erase_absent j m h.0)

-- Every key of the first map is one of the second.
abbrev pub KeysIn : {V W : Type 0} → Dict V → Dict W → Type 0
KeysIn a d = (k : Text) → has k a ≡ true → has k d ≡ true

module _ {V W : Type 0} where
  KeysIn-erase :
      (k : Text) (v : V) (a : Dict V) (d : Dict W)
      → lookup k a ≡ none
      → KeysIn ((k, v) ∷ a) d
      → KeysIn a (erase k d)
  unfolding lookup
  KeysIn-erase k v a d h sub j e = ground (arith, lookup-erase k j d, text_eq_iff k j, sub j)

  pub length-le_of_KeysIn :
      (a : Dict V) (d : Dict W) → IsUnique a → IsUnique d → KeysIn a d → length a ≤ length d
  length-le_of_KeysIn [] d ha hd sub = omega arith
  length-le_of_KeysIn ((k, v) ∷ a) d ha hd sub =
      let smaller =
        length-le_of_KeysIn a (erase k d) ha.1 (erase-IsUnique k d hd)
          (KeysIn-erase k v a d ha.0 sub) in
      omega (arith, smaller, length-erase k d hd (sub k (has_head k v a)))

  -- As many keys as the other map has are all of them.
  pub KeysIn-of_length-eq :
      (a : Dict V) (d : Dict W)
      → IsUnique a
      → IsUnique d
      → KeysIn a d
      → length a ≡ length d
      → KeysIn d a
  unfolding lookup
  KeysIn-of_length-eq [] [] ha hd sub same k e = e
  KeysIn-of_length-eq [] (x ∷ d) ha hd sub same k e = absurd (omega arith)
  KeysIn-of_length-eq ((k, v) ∷ a) d ha hd sub same j e = ground (
    arith,
    lookup-erase k j d,
    text_eq_iff k j,
    KeysIn-of_length-eq a (erase k d) ha.1 (erase-IsUnique k d hd) (KeysIn-erase k v a d ha.0 sub)
        (omega (arith, length-erase k d hd (sub k (has_head k v a)))) j,
  )
