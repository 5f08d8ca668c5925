-- ===== src/Update/Samples.antt =====
-- metric.go: what `Samples` returns, and its cache.
use go_ecoflow_exporter.Base.{
  ℕ, Text, text_eq_iff, true, false, Option, none, some, if◌then◌else◌, List, [], ◌∷◌, ◌≡◌, refl,
  ap, ◌∙◌, arith, All, inl, inr, Option-cases,
}
use go_ecoflow_exporter.Base.Int.{ℤ, pos}
use go_ecoflow_exporter.Base.Dict.{Dict, lookup, insert, lookup-insert}
use go_ecoflow_exporter.Name.{
  Unicode, NameResult, name_ok, cannot_convert, generate_metric_name, metric_prefix_pattern,
}
use go_ecoflow_exporter.Name.Valid.{generate_metric_name_valid}
use go_ecoflow_exporter.Update.{
  parsed, to_float, float64, float32, int, int32, int64, uint32, uint64, json_number, boolean,
  string, array, object, nil, Floats, EcoflowDevice, Any, Sample, DeviceUpdate, new_device_update,
  to_sample, append_named, compute_samples, samples_of,
}

-- The parameters that have a name, with their values.
unfoldable pub named {ℓ} : {A : Type ℓ} → Dict A → Dict A
named [] = []
named (([], raw) ∷ params) = named params
named (((c ∷ k), raw) ∷ params) = (c ∷ k, raw) ∷ named params

module _ {F64 F32 : Type 0} where
  -- The parameters and raw values of samples.
  unfoldable pub described : List (Sample F64 F32) → Dict (Any F64 F32)
  described [] = []
  described (s ∷ ss) = (s.param, s.raw) ∷ described ss

module _ {F64 F32 : Type 0} (fl : Floats F64 F32) where
  -- The integer that a value is, a boolean being 1 or 0.
  abbrev pub integer_of : Any F64 F32 → Option ℤ
  integer_of (int i) = some i
  integer_of (int32 i) = some i
  integer_of (int64 i) = some i
  integer_of (uint32 n) = some (pos n)
  integer_of (uint64 n) = some (pos n)
  integer_of (boolean b) = some (pos (if b then 1 else 0))
  integer_of _ = none

  abbrev pub real_of : Any F64 F32 → Option F64
  real_of (float64 x) = some x
  real_of (float32 x) = some (fl.widen x)
  real_of (json_number s) = fl.parse s
  real_of _ = none

  -- The number that a value is, if it is one.
  abbrev pub number_of : Any F64 F32 → Option F64
  number_of raw = elim (integer_of raw) [ some i ↦ some (fl.of_int i) | none ↦ real_of raw ]

  parsed-number :
      (s : Text) (o : Option F64) → o ≡ (if (parsed fl s o).1 then some (parsed fl s o).0 else none)
  parsed-number s none = refl
  parsed-number s (some x) = refl

  to_float-number_of :
      (raw : Any F64 F32)
      → number_of raw ≡ (if (to_float fl raw).1 then some (to_float fl raw).0 else none)
  unfolding to_float
  to_float-number_of (float64 x) = refl
  to_float-number_of (float32 x) = refl
  to_float-number_of (int i) = refl
  to_float-number_of (int32 i) = refl
  to_float-number_of (int64 i) = refl
  to_float-number_of (uint32 n) = refl
  to_float-number_of (uint64 n) = refl
  to_float-number_of (json_number s) = parsed-number s (fl.parse s)
  to_float-number_of (boolean true) = refl
  to_float-number_of (boolean false) = refl
  to_float-number_of (string s) = refl
  to_float-number_of (array s) = refl
  to_float-number_of (object s) = refl
  to_float-number_of nil = refl

module _ {F64 F32 : Type 0} (fl : Floats F64 F32) (u : Unicode) (prefix sn : Text) where
  -- What a sample says of the parameter that it is made of.
  abbrev pub Describes : Sample F64 F32 → Type 0
  Describes s =
      (metric_prefix_pattern s.name ≡ true)
      × ((key : Text) × (generate_metric_name u s.param prefix sn ≡ name_ok (s.name, key)))
      × (number_of fl s.raw ≡ (if s.numeric then some s.value else none))

  to_sample-Describes :
      (param name key : Text) (raw : Any F64 F32)
      → metric_prefix_pattern prefix ≡ true
      → generate_metric_name u param prefix sn ≡ name_ok (name, key)
      → Describes (to_sample fl param raw name)
  unfolding to_sample
  to_sample-Describes param name key raw hp h = (
    generate_metric_name_valid u param prefix sn name key hp h,
    (key, h),
    to_float-number_of fl raw,
  )

  append_named-Describes :
      (param : Text) (raw : Any F64 F32) (rest : List (Sample F64 F32))
      → metric_prefix_pattern prefix ≡ true
      → (r : NameResult (Text × Text)) → generate_metric_name u param prefix sn ≡ r
      → All Describes rest
      → All Describes (append_named fl param raw r rest)
  append_named-Describes param raw rest hp (name_ok (name, key)) e h =
      (to_sample-Describes param name key raw hp e, h)
  append_named-Describes param raw rest hp (cannot_convert k) e h = h

  compute_samples_describe :
      (params : Dict (Any F64 F32))
      → metric_prefix_pattern prefix ≡ true
      → All Describes (compute_samples fl u prefix sn params)
  unfolding compute_samples
  compute_samples_describe [] hp = tt
  compute_samples_describe ((param, raw) ∷ params) hp =
      append_named-Describes param raw _ hp (generate_metric_name u param prefix sn) refl
        (compute_samples_describe params hp)

  described-compute_samples :
      (params : Dict (Any F64 F32))
      → described (compute_samples fl u prefix sn params) ≡ named params
  unfolding described compute_samples named generate_metric_name to_sample
  described-compute_samples [] = refl
  described-compute_samples (([], raw) ∷ params) = described-compute_samples params
  described-compute_samples (((c ∷ k), raw) ∷ params) =
      ap (λ (d : Dict (Any F64 F32)). (c ∷ k, raw) ∷ d) (described-compute_samples params)

  -- Behind a valid prefix there is one sample for each parameter with a nonempty name, in order and with the parameter's
  -- value, and for no other. Each has a valid metric name, the one of its parameter, and is numeric exactly if
  -- the value is an integer, a float, a boolean or a JSON number that reads as one; it then has that number.
  pub compute_samples_exact :
      (params : Dict (Any F64 F32))
      → metric_prefix_pattern prefix ≡ true
      → (described (compute_samples fl u prefix sn params) ≡ named params)
        × All Describes (compute_samples fl u prefix sn params)
  compute_samples_exact params hp =
      (described-compute_samples params, compute_samples_describe params hp)

module _ {F64 F32 : Type 0} (fl : Floats F64 F32) (u : Unicode) where
  -- What the cache holds is what would be computed.
  pub record IsCached (up : DeviceUpdate F64 F32) : Type 0 where
    pub at :
        (prefix : Text) (s : List (Sample F64 F32))
        → lookup prefix up.samples ≡ some s
        → s ≡ compute_samples fl u prefix up.device.sn up.params

  pub new_device_update-IsCached :
      (now : ℕ) (device : EcoflowDevice) (params : Dict (Any F64 F32))
      → IsCached (new_device_update now device params)
  unfolding new_device_update lookup
  new_device_update-IsCached now device params = record { at = λ p s h. cc }

  -- The reads of one update's samples, for any sequence of prefixes.
  pub read_all : List Text → DeviceUpdate F64 F32 → List (List (Sample F64 F32))
  read_all [] up = []
  read_all (p ∷ ps) up = let (s, up') = samples_of fl u p up in s ∷ read_all ps up'

  pub computed_all : List Text → EcoflowDevice → Dict (Any F64 F32) → List (List (Sample F64 F32))
  computed_all [] device params = []
  computed_all (p ∷ ps) device params =
      compute_samples fl u p device.sn params ∷ computed_all ps device params

  insert-IsCached :
      (prefix : Text) (up : DeviceUpdate F64 F32)
      → IsCached up
      → IsCached (record up {
        samples = insert prefix (compute_samples fl u prefix up.device.sn up.params) up.samples;
      })
  insert-IsCached prefix up h = record {
    at = λ p s l. ground (
      arith,
      text_eq_iff prefix p,
      h.at p s,
      lookup-insert prefix p (compute_samples fl u prefix up.device.sn up.params) up.samples,
    );
  }

  pub samples_of_lem :
      (prefix : Text) (up : DeviceUpdate F64 F32)
      → IsCached up
      → ((samples_of fl u prefix up).0 ≡ compute_samples fl u prefix up.device.sn up.params)
        × IsCached (samples_of fl u prefix up).1
        × ((samples_of fl u prefix up).1.device ≡ up.device)
        × ((samples_of fl u prefix up).1.params ≡ up.params)
  unfolding samples_of
  samples_of_lem prefix up h = elim (Option-cases (lookup prefix up.samples)) [
    | inl e ↦ rw (e, samples_of) (refl, insert-IsCached prefix up h, refl, refl)
    | inr (s, e) ↦ rw (e, samples_of) (h.at prefix s e, h, refl, refl)
  ]

  read_all-computed_all_from :
      (ps : List Text) (up : DeviceUpdate F64 F32) (device : EcoflowDevice)
      (params : Dict (Any F64 F32))
      → up.device ≡ device
      → up.params ≡ params
      → IsCached up
      → read_all ps up ≡ computed_all ps device params
  unfolding read_all computed_all
  read_all-computed_all_from [] up device params d e h = refl
  read_all-computed_all_from (p ∷ ps) up device params d e h =
      let (now, later, same_device, same_params) = samples_of_lem p up h in
      cc (
        now,
        d,
        e,
        read_all-computed_all_from ps (samples_of fl u p up).1 device params (same_device ∙ d)
            (same_params ∙ e) later,
      )

  -- However often and with whatever prefixes the handlers read the samples of one update, each read
  -- returns what a computation from the parameters would return.
  pub read_all-computed_all :
      (ps : List Text) (now : ℕ) (device : EcoflowDevice) (params : Dict (Any F64 F32))
      → read_all ps (new_device_update now device params) ≡ computed_all ps device params
  unfolding new_device_update
  read_all-computed_all ps now device params =
      read_all-computed_all_from ps _ device params refl refl
        (new_device_update-IsCached now device params)
