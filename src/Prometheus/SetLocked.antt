-- ===== src/Prometheus/SetLocked.antt =====
-- prometheus.go: what holds of the exporter between two calls, and `setLocked`.
use go_ecoflow_exporter.Base.{
  Text, text_eq, text_eq_iff, true, Option, none, some, ◌≡◌, refl, arith, ◌⊎◌, if◌then◌else◌, inl,
  inr, Option-cases,
}
use go_ecoflow_exporter.Base.Dict.{
  Dict, lookup, insert, has, IsUnique, lookup-insert, insert-IsUnique,
}
use go_ecoflow_exporter.Update.{EcoflowDevice}
use go_ecoflow_exporter.Prometheus.{
  PromSample, Desc, PrometheusExporter, metric_key, described, set_found, set_locked,
}

-- A series as `setLocked` leaves it.
unfoldable pub updated :
    {V : Type 0} → EcoflowDevice → Text → V → Option (PromSample V) → PromSample V
updated device name value (some s) = record s { value = value }
updated device name value none = record {
  sn = device.sn;
  device = device.name;
  name = name;
  value = value;
}

-- No key stands twice; a series is stored under its own key; a descriptor is stored under its own
-- name, and every series has one.
pub record IsWellFormed (V : Type 0) (p : PrometheusExporter V) : Type 0 where
  pub unique : IsUnique p.metrics
  pub keyed :
      (k : Text) (s : PromSample V) → lookup k p.metrics ≡ some s → k ≡ metric_key s.sn s.name
  pub named : (n : Text) (d : Desc) → lookup n p.descs ≡ some d → d.fq_name ≡ n
  pub described_by :
      (k : Text) (s : PromSample V) → lookup k p.metrics ≡ some s → has s.name p.descs ≡ true

module _ {V : Type 0} (device : EcoflowDevice) (param name : Text) (value : V) where
  pub metrics-set_locked :
      (p : PrometheusExporter V)
      → (set_locked device param name value p).metrics
        ≡ insert
            (metric_key device.sn name)
            (updated device name value (lookup (metric_key device.sn name) p.metrics))
            p.metrics
  unfolding set_locked updated
  metrics-set_locked p = ground arith

  pub lookup-set_locked :
      (p : PrometheusExporter V) (k : Text)
      → lookup k (set_locked device param name value p).metrics ≡ (
          if text_eq (metric_key device.sn name) k
          then some (updated device name value (lookup (metric_key device.sn name) p.metrics))
          else lookup k p.metrics)
  lookup-set_locked p k = rw (metrics-set_locked p) (lookup-insert _ k _ p.metrics)

  descs-set_locked :
      (p : PrometheusExporter V)
      → (set_locked device param name value p).descs
        ≡ elim (lookup (metric_key device.sn name) p.metrics) [
          | some s ↦ p.descs
          | none ↦ described param name p.descs
        ]
  unfolding set_locked
  descs-set_locked p = ground arith

-- Descriptors are only added, each under its own name.
module _ (param name : Text) (descs : Dict Desc) (n : Text) where
  abbrev fresh : Desc
  fresh = record { fq_name = name; help_param = param }

  has-described : has n descs ≡ true → has n (described param name descs) ≡ true
  unfolding described
  has-described h = ground (arith, lookup-insert name n fresh descs)

  has-described_self : has name (described param name descs) ≡ true
  unfolding described
  has-described_self = ground (arith, text_eq_iff name name, lookup-insert name name fresh descs)

  described_named :
      (d : Desc)
      → ((e : Desc) → lookup n descs ≡ some e → e.fq_name ≡ n)
      → lookup n (described param name descs) ≡ some d
      → d.fq_name ≡ n
  unfolding described
  described_named d h l = ground (arith, h d, text_eq_iff name n, lookup-insert name n fresh descs)

module _ {V : Type 0} (device : EcoflowDevice) (param name : Text) (value : V) where
  abbrev key : Text
  key = metric_key device.sn name

  updated_keyed :
      (p : PrometheusExporter V) (o : Option (PromSample V))
      → IsWellFormed V p
      → lookup key p.metrics ≡ o
      → key ≡ metric_key (updated device name value o).sn (updated device name value o).name
  unfolding updated
  updated_keyed p none h e = refl
  updated_keyed p (some s) h e = h.keyed key s e

  set_locked-keyed :
      (p : PrometheusExporter V) (k : Text) (s : PromSample V)
      → IsWellFormed V p
      → lookup k (set_locked device param name value p).metrics ≡ some s
      → k ≡ metric_key s.sn s.name
  set_locked-keyed p k s h l = ground (
    arith,
    lookup-set_locked device param name value p k,
    text_eq_iff key k,
    h.keyed k s,
    updated_keyed p (lookup key p.metrics) h refl,
  )

  set_locked-named :
      (p : PrometheusExporter V) (n : Text) (d : Desc)
      → IsWellFormed V p
      → lookup n (set_locked device param name value p).descs ≡ some d
      → d.fq_name ≡ n
  unfolding set_locked
  set_locked-named p n d h l = elim (Option-cases (lookup key p.metrics)) [
    | inl e ↦ described_named param name p.descs n d (h.named n) (rw (e, set_found) at l)
    | inr (s, e) ↦ h.named n d (rw (e, set_found) at l)
  ]

  -- What a series may be after the call: the one that was set, or an old one.
  pub set_locked_cases :
      (p : PrometheusExporter V) (k : Text) (s : PromSample V)
      → lookup k (set_locked device param name value p).metrics ≡ some s
      → ((k ≡ key) × (s ≡ updated device name value (lookup key p.metrics)))
        ⊎ (lookup k p.metrics ≡ some s)
  set_locked_cases p k s l =
      ground (arith, lookup-set_locked device param name value p k, text_eq_iff key k)

  has-set_locked :
      (p : PrometheusExporter V) (n : Text)
      → has n p.descs ≡ true
      → has n (set_locked device param name value p).descs ≡ true
  unfolding set_locked
  has-set_locked p n h = elim (Option-cases (lookup key p.metrics)) [
    | inl e ↦ rw (e, set_found) (has-described param name p.descs n h)
    | inr (s, e) ↦ rw (e, set_found) h
  ]

  has-updated :
      (p : PrometheusExporter V)
      → IsWellFormed V p
      → has
          (updated device name value (lookup key p.metrics)).name
          (set_locked device param name value p).descs
        ≡ true
  unfolding set_locked updated
  has-updated p h = elim (Option-cases (lookup key p.metrics)) [
    | inl e ↦ rw (e, set_found, updated) (has-described_self param name p.descs name)
    | inr (s, e) ↦ rw (e, set_found, updated) (h.described_by key s e)
  ]

  set_locked-described :
      (p : PrometheusExporter V) (k : Text) (s : PromSample V)
      → IsWellFormed V p
      → lookup k (set_locked device param name value p).metrics ≡ some s
      → has s.name (set_locked device param name value p).descs ≡ true
  set_locked-described p k s h l = elim (set_locked_cases p k s l) [
    | inl (_, e) ↦ rw e (has-updated p h)
    | inr old ↦ has-set_locked p s.name (h.described_by k s old)
  ]

  pub set_locked-IsWellFormed :
      (p : PrometheusExporter V)
      → IsWellFormed V p
      → IsWellFormed V (set_locked device param name value p)
  set_locked-IsWellFormed p h = record {
    unique =
        rw (metrics-set_locked device param name value p)
          (insert-IsUnique key _ p.metrics h.unique);
    keyed = λ k s l. set_locked-keyed p k s h l;
    named = λ n d l. set_locked-named p n d h l;
    described_by = λ k s l. set_locked-described p k s h l;
  }
