-- ===== src/Protobuf/Visited.antt =====
-- internal/protobuf/messages.go: `decodeProtobufPdata` under every order in which a message's fields are visited.
use go_ecoflow_exporter.Base.{
  Text, codes, text_eq_iff, true, false, List, [], ◌++◌, append_assoc, ◌≡◌, refl, sym, ap, ◌∙◌,
  arith,
}
use go_ecoflow_exporter.Base.Order.{Reordered}
use go_ecoflow_exporter.Update.{Floats}
use go_ecoflow_exporter.Protobuf.Message.{
  FieldValue, Fields, list_or_map, nested, bool_kind, float_kind, int_kind, uint_kind, enum_kind,
  string_kind, bytes_kind, done, field, MessageType, property_upload, cms_heart_beat_report,
  bms_heart_beat_report,
}
use go_ecoflow_exporter.Protobuf.Decoder.{pack_prefix, get_num, params_of_message}
use go_ecoflow_exporter.Protobuf.Order.{
  SameFields, as_is, behind, inside, exchanged, and_then, entries_of, value_entries,
  flatten_message-SameFields,
}
use go_ecoflow_exporter.Protobuf.Names.{FreshName, IsNamed, entries_of-IsUnique}

-- The fields of both, one after the other.
abbrev joined : {F64 : Type 0} → Fields F64 → Fields F64 → Fields F64
joined done m = m
joined (field name v rest) m = field name v (joined rest m)

abbrev inlined_field : {F64 : Type 0} → Text → FieldValue F64 → Fields F64 → Fields F64
inlined_field name (nested m) rest = joined m rest
inlined_field name v rest = field name v rest

-- A message with the fields of its wrappers in place of the wrappers.
abbrev inlined : {F64 : Type 0} → Fields F64 → Fields F64
inlined done = done
inlined (field name v rest) = inlined_field name v (inlined rest)

abbrev AreDistinct : {F64 : Type 0} → Fields F64 → Type 0
AreDistinct done = Unit
AreDistinct (field name v rest) = FreshName name rest × AreDistinct rest

-- In each message the fields have distinct names without dots; the wrappers of a CMS report count as one message.
abbrev pub IsWellNamed : {F64 : Type 0} → MessageType → Fields F64 → Type 0
IsWellNamed cms_heart_beat_report m = IsNamed (inlined m)
IsWellNamed t m = IsNamed m

module _ {F64 : Type 0} where
  IsNamed-AreDistinct : (m : Fields F64) → IsNamed m → AreDistinct m
  IsNamed-AreDistinct done h = tt
  IsNamed-AreDistinct (field name v rest) (plain, fresh, inner, named) =
      (fresh, IsNamed-AreDistinct rest named)

  FreshName-SameFields :
      (name : Text) {m m' : Fields F64} → SameFields m m' → FreshName name m → FreshName name m'
  FreshName-SameFields name as_is h = h
  FreshName-SameFields name (behind other v r) (ne, h) = (ne, FreshName-SameFields name r h)
  FreshName-SameFields name (inside other rest r) h = h
  FreshName-SameFields name (exchanged a b v w m) (na, (nb, h)) = (nb, (na, h))
  FreshName-SameFields name (and_then r r') h =
      FreshName-SameFields name r' (FreshName-SameFields name r h)

  AreDistinct-SameFields : {m m' : Fields F64} → SameFields m m' → AreDistinct m → AreDistinct m'
  AreDistinct-SameFields as_is h = h
  AreDistinct-SameFields (behind name v r) (fresh, h) =
      (FreshName-SameFields name r fresh, AreDistinct-SameFields r h)
  AreDistinct-SameFields (inside name rest r) h = h
  AreDistinct-SameFields (exchanged a b v w m) ((ne, fa), (fb, h)) =
      ((λ e. ne (sym e), fb), (fa, h))
  AreDistinct-SameFields (and_then r r') h = AreDistinct-SameFields r' (AreDistinct-SameFields r h)

  get_num-SameFields :
      {m m' : Fields F64} → SameFields m m' → AreDistinct m → get_num m ≡ get_num m'
  unfolding get_num
  get_num-SameFields as_is h = refl
  get_num-SameFields (behind name v r) (fresh, h) = rw (get_num-SameFields r h) refl
  get_num-SameFields (inside name rest r) h = refl
  get_num-SameFields (exchanged a b v w m) ((ne, fa), (fb, h)) =
      ground (arith, text_eq_iff a (codes "num"), text_eq_iff b (codes "num"), ne)
  get_num-SameFields (and_then r r') h =
      get_num-SameFields r h ∙ get_num-SameFields r' (AreDistinct-SameFields r h)

append-same {ℓ} : {A : Type ℓ} (xs : List A) {ys zs : List A} → ys ≡ zs → xs ++ ys ≡ xs ++ zs
append-same xs e = ap (λ es. xs ++ es) e

module _ {F64 F32 : Type 0} (fl : Floats F64 F32) where
  entries_of-joined :
      (m n : Fields F64) (prefix : Text)
      → entries_of {F32 = F32} fl (joined m n) prefix false
        ≡ entries_of fl m prefix false ++ entries_of fl n prefix false
  entries_of-joined done n prefix = refl
  entries_of-joined (field name v rest) n prefix =
      append-same (value_entries fl v prefix name false) (entries_of-joined rest n prefix)
      ∙ sym (
          append_assoc (value_entries fl v prefix name false) (entries_of fl rest prefix false)
            (entries_of fl n prefix false))

  entries_of-inlined :
      (m : Fields F64) (prefix : Text)
      → entries_of {F32 = F32} fl m prefix true ≡ entries_of fl (inlined m) prefix false
  entries_of-inlined done prefix = refl
  entries_of-inlined (field name (nested m) rest) prefix =
      append-same (entries_of fl m prefix false) (entries_of-inlined rest prefix)
      ∙ sym (entries_of-joined m (inlined rest) prefix)
  entries_of-inlined (field name list_or_map rest) prefix = entries_of-inlined rest prefix
  entries_of-inlined (field name (bytes_kind b) rest) prefix = entries_of-inlined rest prefix
  entries_of-inlined (field name (bool_kind true) rest) prefix =
      append-same (value_entries fl (bool_kind true) prefix name true)
        (entries_of-inlined rest prefix)
  entries_of-inlined (field name (bool_kind false) rest) prefix =
      append-same (value_entries fl (bool_kind false) prefix name true)
        (entries_of-inlined rest prefix)
  entries_of-inlined (field name (float_kind f) rest) prefix =
      append-same (value_entries fl (float_kind f) prefix name true)
        (entries_of-inlined rest prefix)
  entries_of-inlined (field name (int_kind i) rest) prefix =
      append-same (value_entries fl (int_kind i) prefix name true) (entries_of-inlined rest prefix)
  entries_of-inlined (field name (uint_kind n) rest) prefix =
      append-same (value_entries fl (uint_kind n) prefix name true) (entries_of-inlined rest prefix)
  entries_of-inlined (field name (enum_kind i) rest) prefix =
      append-same (value_entries fl (enum_kind i) prefix name true) (entries_of-inlined rest prefix)
  entries_of-inlined (field name (string_kind s) rest) prefix =
      append-same (value_entries fl (string_kind s) prefix name true)
        (entries_of-inlined rest prefix)

  -- The parameters of a decoded message do not depend, but for their own order, on the order in which the range visits its
  -- fields, at any depth. Assumed: in each message the fields have distinct names without dots, where the wrappers of
  -- a CMS report count as one message.
  pub params_of_message-SameFields :
      (t : MessageType) (m m' : Fields F64)
      → IsWellNamed t m
      → SameFields m m'
      → Reordered (params_of_message {F32 = F32} fl t m) (params_of_message fl t m')
  unfolding params_of_message
  params_of_message-SameFields property_upload m m' h r =
      flatten_message-SameFields fl m m' [] false r (entries_of-IsUnique fl m [] h)
  params_of_message-SameFields cms_heart_beat_report m m' h r =
      flatten_message-SameFields fl m m' [] true r
        (rw (entries_of-inlined m []) (entries_of-IsUnique fl (inlined m) [] h))
  params_of_message-SameFields bms_heart_beat_report m m' h r =
      let prefix = pack_prefix (get_num m) in
      rw (← get_num-SameFields r (IsNamed-AreDistinct m h))
        (flatten_message-SameFields fl m m' prefix false r (entries_of-IsUnique fl m prefix h))
