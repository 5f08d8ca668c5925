-- ===== src/Protobuf/Packs.antt =====
-- internal/protobuf/messages.go: what a flattened message can write, and the reports of battery packs.
use mathlib.Core.List.{append_cancel_left}
use native.Mathlib.Decide.{ℕ_discrete}
use go_ecoflow_exporter.Base.{
  ℕ, Text, codes, text_eq_no, dot, Bool, true, false, none, some, [], ◌∷◌, ◌++◌, append_assoc, ◌≡◌,
  ◌≢◌, refl, sym, ap, ◌∙◌, arith, All,
}
use go_ecoflow_exporter.Base.Dict.{Dict, lookup, insert, lookup-insert}
use go_ecoflow_exporter.Base.Decimal.{format_nat, format_nat_injective, All-format_nat}
use go_ecoflow_exporter.Update.{Floats, Any}
use go_ecoflow_exporter.Protobuf.Message.{
  FieldValue, Fields, list_or_map, nested, bool_kind, float_kind, int_kind, uint_kind, enum_kind,
  string_kind, bytes_kind, done, field, bms_heart_beat_report,
}
use go_ecoflow_exporter.Protobuf.Flatten.{flatten_message, flatten_value}
use go_ecoflow_exporter.Protobuf.Decoder.{pack_prefix, get_num, params_of_message}

abbrev pub StartsWith : Text → Text → Type 0
StartsWith k prefix = (rest : Text) × (k ≡ prefix ++ rest)

module _ {F64 F32 : Type 0} (fl : Floats F64 F32) (k : Text) where
  insert_elsewhere :
      (prefix name : Text) (v : Any F64 F32) (out : Dict (Any F64 F32))
      → ¬ StartsWith k prefix
      → lookup k (insert (prefix ++ name) v out) ≡ lookup k out
  insert_elsewhere prefix name v out h =
      rw
        (
          lookup-insert (prefix ++ name) k v out,
          text_eq_no (prefix ++ name) k (λ e. h (name, sym e)),
        )
        refl

  deeper :
      (prefix name : Text) → ¬ StartsWith k prefix → ¬ StartsWith k ((prefix ++ name) ++ dot ∷ [])
  deeper prefix name h (rest, e) = h (name ++ (dot ∷ rest), e ∙ simp append_assoc refl)

  mutual
    unfolding flatten_message flatten_value

    frame_message :
        (m : Fields F64) (prefix : Text) (inline : Bool) (out : Dict (Any F64 F32))
        → ¬ StartsWith k prefix
        → lookup k (flatten_message fl m prefix inline out) ≡ lookup k out
    frame_message done prefix inline out h = refl
    frame_message (field name v rest) prefix inline out h =
        frame_message rest prefix inline (flatten_value fl v prefix name inline out) h
        ∙ frame_value v prefix name inline out h

    frame_value :
        (v : FieldValue F64) (prefix name : Text) (inline : Bool) (out : Dict (Any F64 F32))
        → ¬ StartsWith k prefix
        → lookup k (flatten_value fl v prefix name inline out) ≡ lookup k out
    frame_value list_or_map prefix name inline out h = refl
    frame_value (nested m) prefix name true out h = frame_message m prefix false out h
    frame_value (nested m) prefix name false out h =
        frame_message m ((prefix ++ name) ++ dot ∷ []) false out (deeper prefix name h)
    frame_value (bool_kind true) prefix name inline out h = insert_elsewhere prefix name _ out h
    frame_value (bool_kind false) prefix name inline out h = insert_elsewhere prefix name _ out h
    frame_value (float_kind f) prefix name inline out h = insert_elsewhere prefix name _ out h
    frame_value (int_kind i) prefix name inline out h = insert_elsewhere prefix name _ out h
    frame_value (uint_kind n) prefix name inline out h = insert_elsewhere prefix name _ out h
    frame_value (enum_kind i) prefix name inline out h = insert_elsewhere prefix name _ out h
    frame_value (string_kind s) prefix name inline out h = insert_elsewhere prefix name _ out h
    frame_value (bytes_kind b) prefix name inline out h = refl

-- A text before the first dot is determined.
before_dot :
    (s t m n : Text)
    → All (λ c. c ≢ dot) s
    → All (λ c. c ≢ dot) t
    → s ++ dot ∷ m ≡ t ++ dot ∷ n
    → s ≡ t
before_dot [] [] m n hs ht e = refl
before_dot [] (d ∷ t) m n hs ht e = absurd (ht.0 (cc))
before_dot (c ∷ s) [] m n hs ht e = absurd (hs.0 (cc))
before_dot (c ∷ s) (d ∷ t) m n hs ht e =
    let heads : c ≡ d = cc in cc (heads, before_dot s t m n hs.1 ht.1 (cc))

pack_prefix-append :
    (n : ℕ) (r : Text) → pack_prefix n ++ r ≡ codes "bms." ++ (format_nat n ++ dot ∷ r)
unfolding pack_prefix
pack_prefix-append n r =
    append_assoc (codes "bms.") (format_nat n ++ dot ∷ []) r
    ∙ ap (λ t. codes "bms." ++ t) (append_assoc (format_nat n) (dot ∷ []) r)

pack_prefix_of_StartsWith :
    (a b : ℕ) (k : Text) → StartsWith k (pack_prefix a) → StartsWith k (pack_prefix b) → a ≡ b
pack_prefix_of_StartsWith a b k (r, e) (r', e') =
    let same : codes "bms." ++ (format_nat a ++ dot ∷ r)
        ≡ codes "bms." ++ (format_nat b ++ dot ∷ r') =
      sym (pack_prefix-append a r) ∙ sym e ∙ e' ∙ pack_prefix-append b r' in
    format_nat_injective a b (
      before_dot (format_nat a) (format_nat b) r r' (All-format_nat a dot (omega arith))
        (All-format_nat b dot (omega arith)) (append_cancel_left (codes "bms.") _ _ same))

module _ {F64 F32 : Type 0} (fl : Floats F64 F32) where
  writes_in_prefix :
      (m : Fields F64) (prefix k : Text) (inline : Bool) (v : Any F64 F32)
      → lookup k (flatten_message fl m prefix inline []) ≡ some v
      → ¬ ¬ StartsWith k prefix
  writes_in_prefix m prefix k inline v l h =
      let empty : lookup {V = Any F64 F32} k [] ≡ none = unfold lookup in refl in
      cc (l, frame_message fl k m prefix inline [] h, empty)

  -- Reports that share a parameter name are of the same battery pack: no pack overwrites what another one
  -- reported.
  pub packs_apart :
      (m n : Fields F64) (k : Text) (v w : Any F64 F32)
      → lookup k (params_of_message fl bms_heart_beat_report m) ≡ some v
      → lookup k (params_of_message fl bms_heart_beat_report n) ≡ some w
      → get_num m ≡ get_num n
  unfolding params_of_message
  packs_apart m n k v w l l' = elim (ℕ_discrete (get_num m) (get_num n)) [
    | yes e ↦ e
    | no h ↦ absurd (
        writes_in_prefix m (pack_prefix (get_num m)) k false v l (λ s.
          writes_in_prefix n (pack_prefix (get_num n)) k false w l'
            (λ s'. h (pack_prefix_of_StartsWith (get_num m) (get_num n) k s s'))))
  ]
