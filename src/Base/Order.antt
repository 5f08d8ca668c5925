-- ===== src/Base/Order.antt =====
-- Lists that differ in their order only.
use mathlib.Core.Path.{◌≡◌}
use mathlib.Core.List.{List, [], ◌∷◌, ◌++◌}
use mathlib.Core.Option.{none}
use native.Mathlib.Omega.{arith}
use go_ecoflow_exporter.Base.Lists.{All}
use go_ecoflow_exporter.Base.Texts.{Text, text_eq_iff}
use go_ecoflow_exporter.Base.Dict.{Dict, lookup, IsUnique}

-- The same elements in another order. The library's Perm is a proposition and proves nothing of values that may not
-- form a set, as the floats here.
pub data Reordered {A : Type 0} : List A → List A → Type 0 where
  unchanged : {xs : List A} → Reordered xs xs
  kept : (x : A) {xs ys : List A} → Reordered xs ys → Reordered (x ∷ xs) (x ∷ ys)
  swapped : (x y : A) {xs : List A} → Reordered (x ∷ y ∷ xs) (y ∷ x ∷ xs)
  chained : {xs ys zs : List A} → Reordered xs ys → Reordered ys zs → Reordered xs zs

pub All-Reordered :
    {A : Type 0} (P : A → Type 0) {xs ys : List A} → Reordered xs ys → All P xs → All P ys
All-Reordered P unchanged h = h
All-Reordered P (kept x r) h = (h.0, All-Reordered P r h.1)
All-Reordered P (swapped x y) h = (h.1.0, (h.0, h.1.1))
All-Reordered P (chained r r') h = All-Reordered P r' (All-Reordered P r h)

module _ {A : Type 0} where
  pub Reordered-append_left :
      (xs : List A) {ys zs : List A} → Reordered ys zs → Reordered (xs ++ ys) (xs ++ zs)
  Reordered-append_left [] r = r
  Reordered-append_left (x ∷ xs) r = kept x (Reordered-append_left xs r)

  pub Reordered-append_right :
      {xs ys : List A} → Reordered xs ys → (zs : List A) → Reordered (xs ++ zs) (ys ++ zs)
  Reordered-append_right unchanged zs = unchanged
  Reordered-append_right (kept x r) zs = kept x (Reordered-append_right r zs)
  Reordered-append_right (swapped x y) zs = swapped x y
  Reordered-append_right (chained r r') zs =
      chained (Reordered-append_right r zs) (Reordered-append_right r' zs)

  into_middle : (x : A) (ys zs : List A) → Reordered (x ∷ (ys ++ zs)) (ys ++ (x ∷ zs))
  into_middle x [] zs = unchanged
  into_middle x (y ∷ ys) zs = chained (swapped x y) (kept y (into_middle x ys zs))

  -- Two runs of elements change places.
  pub swapped_runs : (xs ys zs : List A) → Reordered (xs ++ (ys ++ zs)) (ys ++ (xs ++ zs))
  swapped_runs [] ys zs = unchanged
  swapped_runs (x ∷ xs) ys zs =
      chained (kept x (swapped_runs xs ys zs)) (into_middle x ys (xs ++ zs))

module _ {V : Type 0} where
  absent-Reordered :
      (k : Text) {m n : Dict V} → Reordered m n → lookup k m ≡ none → lookup k n ≡ none
  unfolding lookup
  absent-Reordered k unchanged h = h
  absent-Reordered k (kept (j, v) r) h = ground (arith, absent-Reordered k r)
  absent-Reordered k (swapped (i, v) (j, w)) h = ground arith
  absent-Reordered k (chained r r') h = absent-Reordered k r' (absent-Reordered k r h)

  pub IsUnique-Reordered : {m n : Dict V} → Reordered m n → IsUnique m → IsUnique n
  unfolding lookup
  IsUnique-Reordered unchanged h = h
  IsUnique-Reordered (kept (k, v) r) h = (absent-Reordered k r h.0, IsUnique-Reordered r h.1)
  IsUnique-Reordered (swapped (i, v) (j, w)) h =
      (ground (arith, text_eq_iff i j, text_eq_iff j i, h.0), (ground (arith, h.0), h.1.1))
  IsUnique-Reordered (chained r r') h = IsUnique-Reordered r' (IsUnique-Reordered r h)
