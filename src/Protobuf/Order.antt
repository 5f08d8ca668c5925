-- ===== src/Protobuf/Order.antt =====
-- internal/protobuf/messages.go: the order in which a range visits the fields of a message, at any depth.
use go_ecoflow_exporter.Base.{
  Text, text_eq, text_eq_iff, dot, Bool, true, false, none, [], ◌∷◌, ◌++◌, append_assoc, append-nil,
  ◌≡◌, refl, sym, ap, ◌∙◌, arith, if◌then◌else◌,
}
use go_ecoflow_exporter.Base.Int.{pos}
use go_ecoflow_exporter.Base.Dict.{Dict, lookup, insert, IsUnique}
use go_ecoflow_exporter.Base.Order.{
  Reordered, unchanged, chained, Reordered-append_left, Reordered-append_right, swapped_runs,
  IsUnique-Reordered,
}
use go_ecoflow_exporter.Update.{Floats, Any, float64, string}
use go_ecoflow_exporter.Protobuf.Message.{
  FieldValue, Fields, list_or_map, nested, bool_kind, float_kind, int_kind, uint_kind, enum_kind,
  string_kind, bytes_kind, done, field,
}
use go_ecoflow_exporter.Protobuf.Flatten.{flatten_message, flatten_value}
use go_ecoflow_exporter.Protobuf.Decoder.{copy_into}

-- The same message, visited in another order.
pub data SameFields {F64 : Type 0} : Fields F64 → Fields F64 → Type 0 where
  as_is : {m : Fields F64} → SameFields m m
  behind :
      (name : Text) (v : FieldValue F64) {m m' : Fields F64}
      → SameFields m m'
      → SameFields (field name v m) (field name v m')
  inside :
      (name : Text) (rest : Fields F64) {m m' : Fields F64}
      → SameFields m m'
      → SameFields (field name (nested m) rest) (field name (nested m') rest)
  exchanged :
      (name name' : Text) (v v' : FieldValue F64) (m : Fields F64)
      → SameFields (field name v (field name' v' m)) (field name' v' (field name v m))
  and_then : {m n o : Fields F64} → SameFields m n → SameFields n o → SameFields m o

module _ {V : Type 0} where
  insert-absent :
      (k : Text) (v : V) (m : Dict V) → lookup k m ≡ none → insert k v m ≡ m ++ (k, v) ∷ []
  unfolding insert lookup
  insert-absent k v [] h = refl
  insert-absent k v ((j, w) ∷ m) h = ground (arith, insert-absent k v m)

  copy_into-append :
      (out xs ys : Dict V) → copy_into out (xs ++ ys) ≡ copy_into (copy_into out xs) ys
  unfolding copy_into
  copy_into-append out [] ys = refl
  copy_into-append out ((k, v) ∷ xs) ys = copy_into-append (insert k v out) xs ys

  other_key :
      (xs ys : Dict V) (j k : Text) (v : V)
      → lookup j (xs ++ (k, v) ∷ ys) ≡ none
      → text_eq j k ≡ false
  unfolding lookup
  other_key [] ys j k v h = ground (arith, text_eq_iff j k, text_eq_iff k j)
  other_key ((i, w) ∷ xs) ys j k v h = ground (arith, other_key xs ys j k v)

  -- A key that stands behind a list without repetitions is not in the list.
  absent_before :
      (xs ys : Dict V) (k : Text) (v : V) → IsUnique (xs ++ (k, v) ∷ ys) → lookup k xs ≡ none
  unfolding lookup
  absent_before [] ys k v h = refl
  absent_before ((j, w) ∷ xs) ys k v h =
      ground (arith, absent_before xs ys k v h.1, other_key xs ys j k v h.0)

  copy_into-IsUnique : (out xs : Dict V) → IsUnique (out ++ xs) → copy_into out xs ≡ out ++ xs
  unfolding copy_into
  copy_into-IsUnique out [] h = sym (append-nil out)
  copy_into-IsUnique out ((k, v) ∷ xs) h =
      let here : (out ++ (k, v) ∷ []) ++ xs ≡ out ++ ((k, v) ∷ xs) =
        append_assoc out ((k, v) ∷ []) xs in
      rw (insert-absent k v out (absent_before out xs k v h))
        (copy_into-IsUnique (out ++ (k, v) ∷ []) xs (rw (here) h) ∙ here)

module _ {F64 F32 : Type 0} (fl : Floats F64 F32) where
  -- What flattening writes, in its order.
  abbrev mutual
    pub entries_of : Fields F64 → Text → Bool → Dict (Any F64 F32)
    entries_of done prefix inline = []
    entries_of (field name v rest) prefix inline =
        value_entries v prefix name inline ++ entries_of rest prefix inline

    pub value_entries : FieldValue F64 → Text → Text → Bool → Dict (Any F64 F32)
    value_entries list_or_map prefix name inline = []
    value_entries (nested m) prefix name inline =
        entries_of m (if inline then prefix else (prefix ++ name) ++ dot ∷ []) false
    value_entries (bool_kind true) prefix name inline =
        (prefix ++ name, float64 (fl.of_int (pos 1))) ∷ []
    value_entries (bool_kind false) prefix name inline =
        (prefix ++ name, float64 (fl.of_int (pos 0))) ∷ []
    value_entries (float_kind f) prefix name inline = (prefix ++ name, float64 f) ∷ []
    value_entries (int_kind i) prefix name inline = (prefix ++ name, float64 (fl.of_int i)) ∷ []
    value_entries (uint_kind n) prefix name inline =
        (prefix ++ name, float64 (fl.of_int (pos n))) ∷ []
    value_entries (enum_kind i) prefix name inline = (prefix ++ name, float64 (fl.of_int i)) ∷ []
    value_entries (string_kind s) prefix name inline = (prefix ++ name, string s) ∷ []
    value_entries (bytes_kind b) prefix name inline = []

  mutual
    unfolding flatten_message flatten_value copy_into

    pub flatten_message-entries :
        (m : Fields F64) (prefix : Text) (inline : Bool) (out : Dict (Any F64 F32))
        → flatten_message fl m prefix inline out ≡ copy_into out (entries_of m prefix inline)
    flatten_message-entries done prefix inline out = refl
    flatten_message-entries (field name v rest) prefix inline out =
        flatten_message-entries rest prefix inline (flatten_value fl v prefix name inline out)
        ∙ ap (λ o. copy_into o (entries_of rest prefix inline))
            (flatten_value-entries v prefix name inline out)
        ∙ sym (
            copy_into-append out (value_entries v prefix name inline)
              (entries_of rest prefix inline))

    flatten_value-entries :
        (v : FieldValue F64) (prefix name : Text) (inline : Bool) (out : Dict (Any F64 F32))
        → flatten_value fl v prefix name inline out
          ≡ copy_into out (value_entries v prefix name inline)
    flatten_value-entries list_or_map prefix name inline out = refl
    flatten_value-entries (nested m) prefix name inline out =
        flatten_message-entries m (if inline then prefix else (prefix ++ name) ++ dot ∷ []) false
          out
    flatten_value-entries (bool_kind true) prefix name inline out = refl
    flatten_value-entries (bool_kind false) prefix name inline out = refl
    flatten_value-entries (float_kind f) prefix name inline out = refl
    flatten_value-entries (int_kind i) prefix name inline out = refl
    flatten_value-entries (uint_kind n) prefix name inline out = refl
    flatten_value-entries (enum_kind i) prefix name inline out = refl
    flatten_value-entries (string_kind s) prefix name inline out = refl
    flatten_value-entries (bytes_kind b) prefix name inline out = refl

  pub entries_of-SameFields :
      {m m' : Fields F64}
      → SameFields m m'
      → (prefix : Text) (inline : Bool)
      → Reordered (entries_of m prefix inline) (entries_of m' prefix inline)
  entries_of-SameFields as_is prefix inline = unchanged
  entries_of-SameFields (behind name v r) prefix inline =
      Reordered-append_left (value_entries v prefix name inline)
        (entries_of-SameFields r prefix inline)
  entries_of-SameFields (inside name rest r) prefix inline =
      Reordered-append_right
        (entries_of-SameFields r (if inline then prefix else (prefix ++ name) ++ dot ∷ []) false)
        (entries_of rest prefix inline)
  entries_of-SameFields (exchanged name name' v v' m) prefix inline =
      swapped_runs (value_entries v prefix name inline) (value_entries v' prefix name' inline)
        (entries_of m prefix inline)
  entries_of-SameFields (and_then r r') prefix inline =
      chained (entries_of-SameFields r prefix inline) (entries_of-SameFields r' prefix inline)

  -- Without a repetition, flattening gives just what it writes.
  pub flatten_message_distinct :
      (m : Fields F64) (prefix : Text) (inline : Bool)
      → IsUnique (entries_of m prefix inline)
      → flatten_message fl m prefix inline [] ≡ entries_of m prefix inline
  flatten_message_distinct m prefix inline h =
      flatten_message-entries m prefix inline []
      ∙ copy_into-IsUnique [] (entries_of m prefix inline) h

  pub flatten_message-SameFields :
      (m m' : Fields F64) (prefix : Text) (inline : Bool)
      → SameFields m m'
      → IsUnique (entries_of m prefix inline)
      → Reordered (flatten_message fl m prefix inline []) (flatten_message fl m' prefix inline [])
  flatten_message-SameFields m m' prefix inline r h =
      let moved = entries_of-SameFields r prefix inline in
      rw
        (
          flatten_message_distinct m prefix inline h,
          flatten_message_distinct m' prefix inline (IsUnique-Reordered moved h),
        )
        moved
