-- ===== src/Prometheus/Online.antt =====
-- prometheus.go: what `Handle` leaves of the device that the update is about.
use mathlib.Core.List.{append_cancel_left}
use go_ecoflow_exporter.Base.{
  Text, codes, text_eq, text_eq_iff, text_eq_refl, underscore, true, false, ◌&&◌, Option, none,
  some, List, [], ◌∷◌, ◌≡◌, refl, ap, ◌∙◌, arith, if◌then◌else◌, inl, inr, Bool-cases,
}
use go_ecoflow_exporter.Base.Int.{ℤ, pos, negsuc, int_eq}
use go_ecoflow_exporter.Base.Dict.{lookup, delete_where, lookup-delete_where}
use go_ecoflow_exporter.Name.{Unicode}
use go_ecoflow_exporter.Update.{Floats, EcoflowDevice, Sample}
use go_ecoflow_exporter.Prometheus.{
  PromSample, PrometheusExporter, metric_key, set_locked, set_samples, is_stale, online_name, store,
}
use go_ecoflow_exporter.Prometheus.SetLocked.{
  IsWellFormed, updated, lookup-set_locked, set_locked_cases, set_locked-IsWellFormed,
}
use go_ecoflow_exporter.Prometheus.Invariant.{delete_where-IsWellFormed}

-- The value that is stored for a device and a metric name.
unfoldable pub value_at : {V : Type 0} → Text → Text → PrometheusExporter V → Option V
value_at sn name p = elim (lookup (metric_key sn name) p.metrics) [
  | none ↦ none
  | some s ↦ some s.value
]

metric_key_cancel : (sn a b : Text) → metric_key sn a ≡ metric_key sn b → a ≡ b
metric_key_cancel sn a b e =
    let tails = append_cancel_left sn (underscore ∷ a) (underscore ∷ b) e in cc (tails)

pub text_eq-metric_key : (sn a b : Text) → text_eq (metric_key sn a) (metric_key sn b) ≡ text_eq a b
text_eq-metric_key sn a b = ground (
  arith,
  text_eq_iff a b,
  text_eq_iff (metric_key sn a) (metric_key sn b),
  metric_key_cancel sn a b,
)

int_eq_zero : (i : ℤ) → int_eq i (pos 0) ≡ true → i ≡ pos 0
int_eq_zero (pos n) h = ground arith
int_eq_zero (negsuc n) h = cc

module _ {V : Type 0} (device : EcoflowDevice) (param name : Text) (value : V) where
  pub value_at-set_locked :
      (p : PrometheusExporter V) (n : Text)
      → value_at device.sn n (set_locked device param name value p)
        ≡ (if text_eq name n then some value else value_at device.sn n p)
  unfolding value_at updated
  value_at-set_locked p n = ground (
    arith,
    lookup-set_locked device param name value p (metric_key device.sn n),
    text_eq-metric_key device.sn name n,
  )

module _ {F64 F32 : Type 0} where
  -- The value of the last numeric sample of that name, or what there was before.
  abbrev pub latest : Text → List (Sample F64 F32) → Option F64 → Option F64
  latest n [] before = before
  latest n (s ∷ ss) before =
      latest n ss (if s.numeric && text_eq s.name n then some s.value else before)

  pub value_at-set_samples :
      (device : EcoflowDevice) (ss : List (Sample F64 F32)) (p : PrometheusExporter F64) (n : Text)
      → value_at device.sn n (set_samples device ss p) ≡ latest n ss (value_at device.sn n p)
  unfolding set_samples
  value_at-set_samples device [] p n = refl
  value_at-set_samples device (s ∷ ss) p n = elim (Bool-cases s.numeric) [
    | inl e ↦ rw e (
        value_at-set_samples device ss _ n
        ∙ ap (latest n ss) (value_at-set_locked device s.param s.name s.value p n))
    | inr e ↦ rw e (value_at-set_samples device ss p n)
  ]

module _ {V : Type 0} (device : EcoflowDevice) (name : Text) (value : V) (p : PrometheusExporter V)
    (h : IsWellFormed V p) where
  updated_name :
      (o : Option (PromSample V))
      → lookup (metric_key device.sn name) p.metrics ≡ o
      → (updated device name value o).sn ≡ device.sn
      → (updated device name value o).name ≡ name
  unfolding updated
  updated_name none e same = refl
  updated_name (some s) e same =
      metric_key_cancel device.sn s.name name (cc (h.keyed (metric_key device.sn name) s e, same))

  -- In an exporter with no stale series of the device, the series that is set is its only one.
  only_name :
      (param k : Text) (s : PromSample V)
      → ((t : PromSample V) → lookup k p.metrics ≡ some t → t.sn ≡ device.sn → t.name ≡ name)
      → lookup k (set_locked device param name value p).metrics ≡ some s
      → s.sn ≡ device.sn
      → s.name ≡ name
  only_name param k s none_stale l same = elim (set_locked_cases device param name value p k s l) [
    | inl (_, e) ↦
        rw e (updated_name (lookup (metric_key device.sn name) p.metrics) refl (rw e at same))
    | inr old ↦ none_stale s old same
  ]

  only_value :
      (param k : Text) (s : PromSample V)
      → lookup k (set_locked device param name value p).metrics ≡ some s
      → s.sn ≡ device.sn
      → s.name ≡ name
      → s.value ≡ value
  unfolding value_at
  only_value param k s l same named =
      let own = (set_locked-IsWellFormed device param name value p h).keyed k s l in
      let at_key : k ≡ metric_key device.sn name = cc (own, same, named) in
      ground
        (arith, at_key, value_at-set_locked device param name value p name, text_eq_iff name name)

no_stale :
    {V : Type 0} (p : PrometheusExporter V) (sn online k : Text) (t : PromSample V)
    → IsWellFormed V p
    → lookup k (delete_where (is_stale sn online) p.metrics) ≡ some t
    → t.sn ≡ sn
    → t.name ≡ online
no_stale p sn online k t h l same = ground (
  arith,
  lookup-delete_where (is_stale sn online) k p.metrics h.unique,
  text_eq_iff t.sn sn,
  text_eq_iff t.name online,
)

module _ {F64 F32 : Type 0} (fl : Floats F64 F32) (u : Unicode) where
  -- After an update of an online device each of its series holds the value of the last numeric sample
  -- of that name, or its old value where the update has none; and the `online` series holds the
  -- device's status.
  pub store_online :
      (device : EcoflowDevice) (ss : List (Sample F64 F32)) (p : PrometheusExporter F64) (n : Text)
      → int_eq device.online (pos 0) ≡ false
      → value_at device.sn n (store fl u device ss p) ≡ (
          if text_eq (online_name u p.prefix device.sn) n
          then some (fl.of_int device.online)
          else latest n ss (value_at device.sn n p))
  unfolding store
  store_online device ss p n h = rw (h, value_at-set_locked, value_at-set_samples) refl

  -- After any update the `online` series of the device holds its status, as a float.
  pub store_status :
      (device : EcoflowDevice) (ss : List (Sample F64 F32)) (p : PrometheusExporter F64)
      → value_at device.sn (online_name u p.prefix device.sn) (store fl u device ss p)
        ≡ some (fl.of_int device.online)
  unfolding store
  store_status device ss p = rw (value_at-set_locked, text_eq_refl) refl

  -- After an update of an offline device every series of it that is left has the name of the `online`
  -- series, and holds 0.
  pub store_offline :
      (device : EcoflowDevice) (ss : List (Sample F64 F32)) (p : PrometheusExporter F64) (k : Text)
      (s : PromSample F64)
      → IsWellFormed F64 p
      → int_eq device.online (pos 0) ≡ true
      → lookup k (store fl u device ss p).metrics ≡ some s
      → s.sn ≡ device.sn
      → (s.name ≡ online_name u p.prefix device.sn) × (s.value ≡ fl.of_int (pos 0))
  unfolding store
  store_offline device ss p k s h off l same =
      let online = online_name u p.prefix device.sn in
      let q = record p { metrics = delete_where (is_stale device.sn online) p.metrics } in
      let ok = delete_where-IsWellFormed (is_stale device.sn online) p h in
      let l' = rw off at l in
      let named =
        only_name device online (fl.of_int device.online) q ok (codes "online") k s
          (λ t. no_stale p device.sn online k t h) l' same in
      let valued =
        only_value device online (fl.of_int device.online) q ok (codes "online") k s l' same
          named in
      (named, valued ∙ ap fl.of_int (int_eq_zero device.online off))
