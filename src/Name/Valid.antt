-- ===== src/Name/Valid.antt =====
-- metric.go: the names that `generateMetricName` makes.
use go_ecoflow_exporter.Base.{
  ℕ, ◌*◌, ◌≤◌, Text, underscore, Bool, true, false, not, ◌&&◌, [], ◌∷◌, ◌++◌, ◌≡◌, refl, arith,
  length, length-append, ◌⊎◌, ◌≢◌, inl, inr, Bool-cases, ◌==◌,
}
use go_ecoflow_exporter.Name.{
  Unicode, is_metric_name_rune, is_start_rune, all_name_runes, metric_prefix_pattern, name_ok,
  cannot_convert, written, separator, convert, ecoflow_param_to_prometheus_metric,
  generate_metric_name,
}

all_name_runes-append :
    (s t : Text)
    → all_name_runes s ≡ true
    → all_name_runes t ≡ true
    → all_name_runes (s ++ t) ≡ true
unfolding all_name_runes
all_name_runes-append [] t hs ht = ht
all_name_runes-append (c ∷ s) t hs ht = ground (arith, all_name_runes-append s t)

underscore_in_pattern :
    (t : Text) → all_name_runes t ≡ true → all_name_runes (underscore ∷ t) ≡ true
unfolding all_name_runes is_start_rune
underscore_in_pattern t h = h

module _ (u : Unicode) where
  written_in_pattern :
      (r : ℕ) (t : Text) → all_name_runes t ≡ true → all_name_runes (written u r ∷ t) ≡ true
  unfolding all_name_runes written is_metric_name_rune is_start_rune
  written_in_pattern r t h = ground arith

  separator_in_pattern :
      (f l : Bool) (r : ℕ) (t : Text)
      → all_name_runes t ≡ true
      → all_name_runes (separator u f l r ++ t) ≡ true
  unfolding separator
  separator_in_pattern f l r t h = elim (Bool-cases (u.is_upper r && (not f && not l))) [
    | inl e ↦ rw e (underscore_in_pattern t h)
    | inr e ↦ rw e h
  ]

  convert_in_pattern : (f l : Bool) (s : Text) → all_name_runes (convert u f l s) ≡ true
  unfolding convert
  convert_in_pattern f l [] = unfold all_name_runes in refl
  convert_in_pattern f l (r ∷ rs) =
      separator_in_pattern f l r _
        (written_in_pattern r _ (convert_in_pattern false (written u r == underscore) rs))

  pattern-append :
      (prefix t : Text)
      → metric_prefix_pattern prefix ≡ true
      → all_name_runes t ≡ true
      → metric_prefix_pattern (prefix ++ underscore ∷ t) ≡ true
  unfolding metric_prefix_pattern
  pattern-append [] t hp ht = cc
  pattern-append (p ∷ ps) t hp ht =
      ground (arith, all_name_runes-append ps (underscore ∷ t), underscore_in_pattern t)

  -- Whatever the parameter is called, in any script, a metric name made behind a prefix that the
  -- configuration accepts matches Prometheus' pattern of metric names.
  pub generate_metric_name_valid :
      (raw prefix sn name key : Text)
      → metric_prefix_pattern prefix ≡ true
      → generate_metric_name u raw prefix sn ≡ name_ok (name, key)
      → metric_prefix_pattern name ≡ true
  unfolding generate_metric_name
  generate_metric_name_valid [] prefix sn name key hp h = cc
  generate_metric_name_valid (r ∷ rs) prefix sn name key hp h = ground (
    arith,
    pattern-append prefix (convert u true false (r ∷ rs)),
    convert_in_pattern true false (r ∷ rs),
  )

  length-separator : (f l : Bool) (r : ℕ) → length (separator u f l r) ≤ 1
  unfolding separator
  length-separator f l r = elim (Bool-cases (u.is_upper r && (not f && not l))) [
    | inl e ↦ rw e (omega arith)
    | inr e ↦ rw e (omega arith)
  ]

  pub convert-length :
      (f l : Bool) (s : Text)
      → (length s ≤ length (convert u f l s)) × (length (convert u f l s) ≤ 2 * length s)
  unfolding convert
  convert-length f l [] = omega arith
  convert-length f l (r ∷ rs) = omega (
    arith,
    length-separator f l r,
    convert-length false (written u r == underscore) rs,
    length-append (separator u f l r)
        (written u r ∷ convert u false (written u r == underscore) rs),
  )

  -- The conversion fails on the empty name alone, and its result has at least the name's length and
  -- at most twice that.
  pub ecoflow_param_to_prometheus_metric_total :
      (key : Text)
      → ((key ≡ []) × (ecoflow_param_to_prometheus_metric u key ≡ cannot_convert []))
        ⊎ ((name : Text) × (ecoflow_param_to_prometheus_metric u key ≡ name_ok name)
            × (length key ≤ length name)
            × (length name ≤ 2 * length key)
            × (key ≢ []))
  unfolding ecoflow_param_to_prometheus_metric
  ecoflow_param_to_prometheus_metric_total [] = inl (refl, refl)
  ecoflow_param_to_prometheus_metric_total (r ∷ rs) =
      let bounds = convert-length true false (r ∷ rs) in
      inr (convert u true false (r ∷ rs), refl, bounds.0, bounds.1, λ e. cc)
