-- ===== src/Protobuf/Names.antt =====
-- internal/protobuf/messages.go: that the fields of a message get parameter names of their own.
use go_ecoflow_exporter.Base.{
  Text, text_eq_iff, text_eq_refl, dot, true, false, none, some, [], ◌∷◌, ◌++◌, append_assoc,
  append-nil, ◌≡◌, ◌≢◌, ◌⊎◌, inl, inr, refl, sym, ◌∙◌, arith, All, Option-cases,
}
use mathlib.Core.List.{append_cancel_left}
use go_ecoflow_exporter.Base.Dict.{Dict, lookup, IsUnique}
use go_ecoflow_exporter.Update.{Floats, Any}
use go_ecoflow_exporter.Protobuf.Message.{
  FieldValue, Fields, list_or_map, nested, bool_kind, float_kind, int_kind, uint_kind, enum_kind,
  string_kind, bytes_kind, done, field,
}
use go_ecoflow_exporter.Protobuf.Order.{entries_of, value_entries}

-- What may follow a field's name: nothing, or a dot and more.
abbrev Tail : Text → Type 0
Tail r = (r ≡ []) ⊎ ((q : Text) × (r ≡ dot ∷ q))

-- A name without dots is read off up to the tail.
names_meet :
    (s t r q : Text)
    → All (λ c. c ≢ dot) s
    → All (λ c. c ≢ dot) t
    → Tail r
    → Tail q
    → s ++ r ≡ t ++ q
    → s ≡ t
names_meet [] [] r q hs ht hr hq e = refl
names_meet [] (d ∷ t) r q hs ht (inl n) hq e = absurd (cc)
names_meet [] (d ∷ t) r q hs ht (inr (_, n)) hq e = absurd (ht.0 (cc))
names_meet (c ∷ s) [] r q hs ht hr (inl n) e = absurd (cc)
names_meet (c ∷ s) [] r q hs ht hr (inr (_, n)) e = absurd (hs.0 (cc))
names_meet (c ∷ s) (d ∷ t) r q hs ht hr hq e =
    let heads : c ≡ d = cc in cc (heads, names_meet s t r q hs.1 ht.1 hr hq (cc))

-- The fields of each message have distinct names, none of them with a dot.
abbrev pub FreshName : {F64 : Type 0} → Text → Fields F64 → Type 0
FreshName name done = Unit
FreshName name (field other v rest) = (name ≢ other) × FreshName name rest

abbrev mutual
  pub IsNamed : {F64 : Type 0} → Fields F64 → Type 0
  IsNamed done = Unit
  IsNamed (field name v rest) =
      All (λ c. c ≢ dot) name × FreshName name rest × HasNamed v × IsNamed rest

  pub HasNamed : {F64 : Type 0} → FieldValue F64 → Type 0
  HasNamed (nested m) = IsNamed m
  HasNamed v = Unit

module _ {V : Type 0} where
  lookup-append :
      (k : Text) (w : V) (xs ys : Dict V)
      → lookup k (xs ++ ys) ≡ some w
      → (lookup k xs ≡ some w) ⊎ (lookup k ys ≡ some w)
  unfolding lookup
  lookup-append k w [] ys h = inr h
  lookup-append k w ((j, v) ∷ xs) ys h = ground (arith, lookup-append k w xs ys)

  absent-append :
      (k : Text) (xs ys : Dict V)
      → lookup k xs ≡ none
      → lookup k ys ≡ none
      → lookup k (xs ++ ys) ≡ none
  unfolding lookup
  absent-append k [] ys h h' = h'
  absent-append k ((j, v) ∷ xs) ys h h' = ground (arith, absent-append k xs ys)

  IsUnique-append :
      (xs ys : Dict V)
      → IsUnique xs
      → IsUnique ys
      → ((k : Text) (w : V) → lookup k xs ≡ some w → lookup k ys ≡ none)
      → IsUnique (xs ++ ys)
  unfolding lookup
  IsUnique-append [] ys hx hy apart = hy
  IsUnique-append ((k, v) ∷ xs) ys (fresh, hx) hy apart = (
    absent-append k xs ys fresh (apart k v (rw (text_eq_refl k) refl)),
    IsUnique-append xs ys hx hy (λ j w l. apart j w (ground (arith, text_eq_iff k j, fresh, l))),
  )

module _ {F64 F32 : Type 0} (fl : Floats F64 F32) where
  one_key :
      (prefix name k : Text) (v w : Any F64 F32)
      → lookup k ((prefix ++ name, v) ∷ []) ≡ some w
      → (r : Text) × Tail r × (k ≡ prefix ++ (name ++ r))
  unfolding lookup
  one_key prefix name k v w l =
      let same : prefix ++ name ≡ k = ground (arith, text_eq_iff (prefix ++ name) k, l) in
      ([], inl refl, rw (append-nil name) (sym same))

  mutual
    unfolding lookup

    starts_message :
        (m : Fields F64) (prefix k : Text) (w : Any F64 F32)
        → lookup k (entries_of fl m prefix false) ≡ some w
        → (q : Text) × (k ≡ prefix ++ q)
    starts_message done prefix k w l = absurd (cc)
    starts_message (field name v rest) prefix k w l =
        elim (lookup-append k w (value_entries fl v prefix name false)
          (entries_of fl rest prefix false) l) [
            | inl here ↦ let (r, tail, e) = starts_value v prefix name k w here in (name ++ r, e)
            | inr later ↦ starts_message rest prefix k w later
          ]

    starts_value :
        (v : FieldValue F64) (prefix name k : Text) (w : Any F64 F32)
        → lookup k (value_entries fl v prefix name false) ≡ some w
        → (r : Text) × Tail r × (k ≡ prefix ++ (name ++ r))
    starts_value list_or_map prefix name k w l = absurd (cc)
    starts_value (nested m) prefix name k w l =
        let (q, e) = starts_message m ((prefix ++ name) ++ dot ∷ []) k w l in
        (
          dot ∷ q,
          inr (q, refl),
          e ∙ append_assoc (prefix ++ name) (dot ∷ []) q ∙ append_assoc prefix name (dot ∷ q),
        )
    starts_value (bool_kind true) prefix name k w l = one_key prefix name k _ w l
    starts_value (bool_kind false) prefix name k w l = one_key prefix name k _ w l
    starts_value (float_kind f) prefix name k w l = one_key prefix name k _ w l
    starts_value (int_kind i) prefix name k w l = one_key prefix name k _ w l
    starts_value (uint_kind n) prefix name k w l = one_key prefix name k _ w l
    starts_value (enum_kind i) prefix name k w l = one_key prefix name k _ w l
    starts_value (string_kind s) prefix name k w l = one_key prefix name k _ w l
    starts_value (bytes_kind b) prefix name k w l = absurd (cc)

  -- No other field writes under a field's name.
  written_elsewhere :
      (m : Fields F64) (prefix name r k : Text) (w : Any F64 F32)
      → All (λ c. c ≢ dot) name
      → FreshName name m
      → IsNamed m
      → Tail r
      → k ≡ prefix ++ (name ++ r)
      → lookup k (entries_of fl m prefix false) ≢ some w
  unfolding lookup
  written_elsewhere done prefix name r k w plain fresh named tail e l = cc
  written_elsewhere (field other v rest) prefix name r k w plain (ne, fresh) (plain', _, _, named)
        tail e l =
      elim (lookup-append k w (value_entries fl v prefix other false)
        (entries_of fl rest prefix false) l) [
          | inl here ↦
              let (r', tail', e') = starts_value v prefix other k w here in
              ne (
                names_meet name other r r' plain plain' tail tail'
                  (append_cancel_left prefix _ _ (sym e ∙ e')))
          | inr later ↦ written_elsewhere rest prefix name r k w plain fresh named tail e later
        ]

  mutual
    unfolding lookup

    pub entries_of-IsUnique :
        (m : Fields F64) (prefix : Text) → IsNamed m → IsUnique (entries_of fl m prefix false)
    entries_of-IsUnique done prefix h = tt
    entries_of-IsUnique (field name v rest) prefix (plain, fresh, inner, named) =
        IsUnique-append (value_entries fl v prefix name false) (entries_of fl rest prefix false)
          (value_entries-IsUnique v prefix name inner) (entries_of-IsUnique rest prefix named)
          (λ k w l.
            let (r, tail, e) = starts_value v prefix name k w l in
            elim (Option-cases (lookup k (entries_of fl rest prefix false))) [
              | inl none_there ↦ none_there
              | inr (w', l') ↦
                  absurd (written_elsewhere rest prefix name r k w' plain fresh named tail e l')
            ])

    value_entries-IsUnique :
        (v : FieldValue F64) (prefix name : Text)
        → HasNamed v
        → IsUnique (value_entries fl v prefix name false)
    value_entries-IsUnique list_or_map prefix name h = tt
    value_entries-IsUnique (nested m) prefix name h =
        entries_of-IsUnique m ((prefix ++ name) ++ dot ∷ []) h
    value_entries-IsUnique (bool_kind true) prefix name h = (refl, tt)
    value_entries-IsUnique (bool_kind false) prefix name h = (refl, tt)
    value_entries-IsUnique (float_kind f) prefix name h = (refl, tt)
    value_entries-IsUnique (int_kind i) prefix name h = (refl, tt)
    value_entries-IsUnique (uint_kind n) prefix name h = (refl, tt)
    value_entries-IsUnique (enum_kind i) prefix name h = (refl, tt)
    value_entries-IsUnique (string_kind s) prefix name h = (refl, tt)
    value_entries-IsUnique (bytes_kind b) prefix name h = tt
