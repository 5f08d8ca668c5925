-- ===== src/Mqtt/Topic.antt =====
-- mqtt_exporter.go: the topics of messages and requests.
use go_ecoflow_exporter.Base.{
  ℕ, Text, List, [], ◌∷◌, ◌++◌, ◌≡◌, ◌≢◌, refl, ◌==◌, Bool-cases, inl, inr, arith, All,
  if◌then◌else◌,
}

abbrev prepend : ℕ → List Text → List Text
prepend c [] = (c ∷ []) ∷ []
prepend c (part ∷ parts) = (c ∷ part) ∷ parts

-- strings.Split at one character
unfoldable pub split : ℕ → Text → List Text
split sep [] = [] ∷ []
split sep (c ∷ s) = let rest = split sep s in if c == sep then [] ∷ rest else prepend c rest

-- parts[len(parts)-1]
unfoldable pub last_part : List Text → Text
last_part [] = []
last_part (part ∷ []) = part
last_part (part ∷ next ∷ parts) = last_part (next ∷ parts)

-- getSnFromTopic: its early returns for an empty topic and an empty last part give the empty text too.
unfoldable pub get_sn_from_topic : Text → Text
get_sn_from_topic topic = last_part (split b'/' topic)

split-IsPlain : (sep : ℕ) (s : Text) → All (λ c. c ≢ sep) s → split sep s ≡ s ∷ []
unfolding split
split-IsPlain sep [] h = refl
split-IsPlain sep (c ∷ s) (hc, hs) = ground (arith, split-IsPlain sep s hs)

last_part-cons :
    (sep c : ℕ) (rest : List Text) (first next : Text) (parts : List Text) (sn : Text)
    → rest ≡ first ∷ next ∷ parts
    → last_part (next ∷ parts) ≡ sn
    → (first' : Text) × (next' : Text) × (parts' : List Text) × ((if c == sep
          then [] ∷ rest
          else prepend c rest)
        ≡ first' ∷ next' ∷ parts')
      × (last_part (next' ∷ parts') ≡ sn)
unfolding last_part
last_part-cons sep c rest first next parts sn e l = elim (Bool-cases (c == sep)) [
  | inl h ↦ ([], first, next ∷ parts, rw (h, e) refl, l)
  | inr h ↦ (c ∷ first, next, parts, rw (h, e) refl, l)
]

split_at : (sep : ℕ) (s : Text) → All (λ c. c ≢ sep) s → split sep (sep ∷ s) ≡ [] ∷ s ∷ []
unfolding split
split_at sep s h = ground (arith, split-IsPlain sep s h)

-- The parts after a separator end as the rest does, whatever stands before it.
last_part-split :
    (sep : ℕ) (before sn : Text)
    → All (λ c. c ≢ sep) sn
    → (first : Text) × (next : Text) × (parts : List Text) × (split sep (before ++ sep ∷ sn)
        ≡ first ∷ next ∷ parts)
      × (last_part (next ∷ parts) ≡ sn)
unfolding split last_part
last_part-split sep [] sn h = ([], sn, [], split_at sep sn h, refl)
last_part-split sep (c ∷ before) sn h =
    let (first, next, parts, e, l) = last_part-split sep before sn h in
    last_part-cons sep c (split sep (before ++ sep ∷ sn)) first next parts sn e l

-- Whatever stands before the last slash, the serial number behind it is found.
pub get_sn_from_topic-append :
    (before sn : Text) → All (λ c. c ≢ b'/') sn → get_sn_from_topic (before ++ b'/' ∷ sn) ≡ sn
unfolding get_sn_from_topic
get_sn_from_topic-append before sn h =
    let (first, next, parts, e, l) = last_part-split b'/' before sn h in
    rw (e) (unfold last_part in l)
