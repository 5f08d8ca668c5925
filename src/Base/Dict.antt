-- ===== src/Base/Dict.antt =====
-- Go's `map[string]V` as an association list. A range over a map visits the entries in an order that
-- the program cannot choose; the list's order stands for one of them.
pub mod Size
use mathlib.Core.Path.{◌≡◌, refl, sym}
use mathlib.Core.Logic.{inl, inr, ◌≢◌, ◌↔◌}
use mathlib.Core.Bool.{Bool, true, false}
use mathlib.Core.Option.{Option, none, some}
use mathlib.Core.List.{List, [], ◌∷◌}
use native.Mathlib.Omega.{arith}
use go_ecoflow_exporter.Base.Tests.{if◌then◌else◌, Bool-cases}
use go_ecoflow_exporter.Base.Lists.{All, In}
use go_ecoflow_exporter.Base.Texts.{Text, text_eq, text_eq_iff, text_eq_refl, text_eq_sym}

abbrev pub Dict {ℓ} : Type ℓ → Type ℓ
Dict V = List (Text × V)

module _ {ℓ} {V : Type ℓ} where
  unfoldable pub lookup : Text → Dict V → Option V
  lookup k [] = none
  lookup k ((j, v) ∷ m) = if text_eq j k then some v else lookup k m

  unfoldable pub insert : Text → V → Dict V → Dict V
  insert k v [] = (k, v) ∷ []
  insert k v ((j, w) ∷ m) = if text_eq j k then (k, v) ∷ m else (j, w) ∷ insert k v m

  -- delete(m, k)
  unfoldable pub erase : Text → Dict V → Dict V
  erase k [] = []
  erase k ((j, w) ∷ m) = let rest = erase k m in if text_eq j k then rest else (j, w) ∷ rest

  -- for k, v := range m { if drop(v) { delete(m, k) } }
  unfoldable pub delete_where : (V → Bool) → Dict V → Dict V
  delete_where drop [] = []
  delete_where drop ((j, w) ∷ m) =
      let rest = delete_where drop m in if drop w then rest else (j, w) ∷ rest

  -- _, ok := m[k]
  abbrev pub has : Text → Dict V → Bool
  has k m = elim (lookup k m) [ none ↦ false | some _ ↦ true ]

  unfoldable pub keys : Dict V → List Text
  keys [] = []
  keys ((j, w) ∷ m) = j ∷ keys m

module _ {ℓ} {V : Type ℓ} where
  pub lookup-insert :
      (k j : Text) (v : V) (m : Dict V)
      → lookup j (insert k v m) ≡ (if text_eq k j then some v else lookup j m)
  unfolding lookup insert
  lookup-insert k j v [] = refl
  lookup-insert k j v ((i, w) ∷ m) =
      ground (arith, text_eq_iff k j, text_eq_iff i k, text_eq_iff i j, lookup-insert k j v m)

  pub lookup-erase :
      (k j : Text) (m : Dict V) → lookup j (erase k m) ≡ (if text_eq k j then none else lookup j m)
  unfolding lookup erase
  lookup-erase k j [] = ground arith
  lookup-erase k j ((i, w) ∷ m) =
      ground (arith, text_eq_iff k j, text_eq_iff i k, text_eq_iff i j, lookup-erase k j m)

  pub lookup-insert_self : (k : Text) (v : V) (m : Dict V) → lookup k (insert k v m) ≡ some v
  lookup-insert_self k v m = simp (lookup-insert, text_eq_refl)

-- No key stands twice.
abbrev pub IsUnique {ℓ} : {V : Type ℓ} → Dict V → Type ℓ
IsUnique [] = Unit
IsUnique ((k, v) ∷ m) = (lookup k m ≡ none) × IsUnique m

-- What a value-wise filter leaves of an entry.
abbrev pub kept {ℓ} : {V : Type ℓ} → (V → Bool) → Option V → Option V
kept drop none = none
kept drop (some v) = if drop v then none else some v

module _ {ℓ} {V : Type ℓ} where
  pub insert-IsUnique : (k : Text) (v : V) (m : Dict V) → IsUnique m → IsUnique (insert k v m)
  unfolding insert lookup
  insert-IsUnique k v [] h = (refl, tt)
  insert-IsUnique k v ((i, w) ∷ m) h = elim (Bool-cases (text_eq i k)) [
    | inl e ↦ rw (e, ← (text_eq_iff i k).0 e) (h.0, h.1)
    | inr e ↦ rw e (rw (lookup-insert k i v m, text_eq_sym k i, e) h.0, insert-IsUnique k v m h.1)
  ]

  pub lookup-delete_where :
      (drop : V → Bool) (k : Text) (m : Dict V)
      → IsUnique m
      → lookup k (delete_where drop m) ≡ kept drop (lookup k m)
  unfolding lookup delete_where
  lookup-delete_where drop k [] h = refl
  lookup-delete_where drop k ((i, w) ∷ m) h =
      ground (arith, text_eq_iff i k, lookup-delete_where drop k m)

  pub delete_where-IsUnique :
      (drop : V → Bool) (m : Dict V) → IsUnique m → IsUnique (delete_where drop m)
  unfolding lookup delete_where
  delete_where-IsUnique drop [] h = h
  delete_where-IsUnique drop ((i, w) ∷ m) h = elim (Bool-cases (drop w)) [
    | inl e ↦ rw e (delete_where-IsUnique drop m h.1)
    | inr e ↦
        rw e (rw (lookup-delete_where drop i m h.1) (rw h.0), delete_where-IsUnique drop m h.1)
  ]

  pub keys-insert_old :
      (k : Text) (v w : V) (m : Dict V) → lookup k m ≡ some w → keys (insert k v m) ≡ keys m
  unfolding keys insert lookup
  keys-insert_old k v w [] h = cc
  keys-insert_old k v w ((i, x) ∷ m) h = ground (arith, text_eq_iff i k, keys-insert_old k v w m)

module _ {ℓ} {V : Type ℓ} where
  -- What holds of every lookup holds of every entry.
  pub All-lookup :
      (P : Text → V → Type 0) (m : Dict V)
      → IsUnique m
      → ((k : Text) (v : V) → lookup k m ≡ some v → P k v)
      → All (λ (e : Text × V). P e.0 e.1) m
  unfolding lookup
  All-lookup P [] h f = tt
  All-lookup P ((k, v) ∷ m) h f = (
    f k v (rw (text_eq_refl k)),
    All-lookup P m h.1 (λ j w l. f j w (ground (arith, text_eq_iff k j, h.0))),
  )

  pub lookup-none-All :
      (k : Text) (m : Dict V) → lookup k m ≡ none → All (λ (e : Text × V). e.0 ≢ k) m
  unfolding lookup
  lookup-none-All k [] h = tt
  lookup-none-All k ((j, w) ∷ m) h =
      (λ e. ground (arith, text_eq_iff j k), lookup-none-All k m (ground (arith, text_eq_iff j k)))

module _ {V : Type 0} where
  pub In-keys : (k : Text) (m : Dict V) → In k (keys m) ↔ (has k m ≡ true)
  unfolding keys lookup
  In-keys k [] = (λ i. absurd i, λ e. cc)
  In-keys k ((j, w) ∷ m) = (
    λ i. elim i [
      | inl e ↦ ground (arith, text_eq_iff j k)
      | inr r ↦ ground (arith, text_eq_iff j k, (In-keys k m).0 r)
    ],
    λ h. elim (Bool-cases (text_eq j k)) [
      | inl e ↦ inl (sym ((text_eq_iff j k).0 e))
      | inr e ↦ inr ((In-keys k m).1 (rw (e, has) at h))
    ],
  )
