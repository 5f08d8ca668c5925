-- ===== src/Prometheus/Collect.antt =====
-- prometheus.go: `Collect`.
use go_ecoflow_exporter.Base.{
  Text, true, some, List, [], ◌∷◌, ◌≡◌, ◌≢◌, refl, arith, All, inl, inr, Option-cases,
}
use go_ecoflow_exporter.Base.Dict.{Dict, lookup, has, IsUnique, All-lookup, lookup-none-All}
use go_ecoflow_exporter.Prometheus.{
  PromSample, Desc, PrometheusExporter, Metrics, const_or_invalid, metric_key, collect_from,
  collect,
}
use go_ecoflow_exporter.Prometheus.SetLocked.{IsWellFormed}

module _ {V M : Type 0} (lib : Metrics V M) where
  -- One metric for each series, made from a descriptor of the series' name.
  abbrev pub Reports : Dict (PromSample V) → List M → Type 0
  Reports [] [] = Unit
  Reports [] (x ∷ xs) = ⊥
  Reports (e ∷ m) [] = ⊥
  Reports ((k, s) ∷ m) (x ∷ xs) =
      ((d : Desc) × (d.fq_name ≡ s.name)
        × (x ≡ const_or_invalid lib d (lib.new_const_metric d s.value s.device s.sn)))
      × Reports m xs

-- No two series have both their name and their serial number in common.
abbrev pub AreDistinct : {V : Type 0} → Dict (PromSample V) → Type 0
AreDistinct [] = Unit
AreDistinct {V} ((k, s) ∷ m) =
    All (λ (e : Text × PromSample V). ¬ ((e.1.name ≡ s.name) × (e.1.sn ≡ s.sn))) m × AreDistinct m

module _ {V M : Type 0} (lib : Metrics V M) where
  collect_from_total :
      (descs : Dict Desc) (m : Dict (PromSample V))
      → ((n : Text) (d : Desc) → lookup n descs ≡ some d → d.fq_name ≡ n)
      → All (λ (e : Text × PromSample V). has e.1.name descs ≡ true) m
      → (ms : List M) × (collect_from lib descs m ≡ some ms) × Reports lib m ms
  unfolding collect_from
  collect_from_total descs [] named h = ([], refl, tt)
  collect_from_total descs ((k, s) ∷ m) named h =
      let (ms, e, r) = collect_from_total descs m named h.1 in
      elim (Option-cases (lookup s.name descs)) [
        | inl l ↦ absurd (ground (arith, h.0))
        | inr (d, l) ↦ (
          const_or_invalid lib d (lib.new_const_metric d s.value s.device s.sn) ∷ ms,
          rw (l, e) refl,
          ((d, named s.name d l, refl), r),
        )
      ]

  All-distinct :
      (k : Text) (s : PromSample V) (m : Dict (PromSample V))
      → k ≡ metric_key s.sn s.name
      → All (λ (e : Text × PromSample V). e.0 ≢ k) m
      → All (λ (e : Text × PromSample V). e.0 ≡ metric_key e.1.sn e.1.name) m
      → All (λ (e : Text × PromSample V). ¬ ((e.1.name ≡ s.name) × (e.1.sn ≡ s.sn))) m
  All-distinct k s [] hk new keyed = tt
  All-distinct k s ((j, t) ∷ m) hk new keyed =
      (λ same. new.0 (cc (hk, keyed.0, same.0, same.1)), All-distinct k s m hk new.1 keyed.1)

  distinct :
      (m : Dict (PromSample V))
      → IsUnique m
      → All (λ (e : Text × PromSample V). e.0 ≡ metric_key e.1.sn e.1.name) m
      → AreDistinct m
  distinct [] h keyed = tt
  distinct ((k, s) ∷ m) h keyed =
      (All-distinct k s m keyed.0 (lookup-none-All k m h.0) keyed.1, distinct m h.1 keyed.1)

  -- A scrape of a well-formed exporter meets no nil descriptor: it sends one metric for each series,
  -- under the series' own name, and no two series share both the name and the serial number.
  pub collect_total :
      (p : PrometheusExporter V)
      → IsWellFormed V p
      → ((ms : List M) × (collect lib p ≡ some ms) × Reports lib p.metrics ms)
        × AreDistinct p.metrics
  unfolding collect
  collect_total p h = (
    collect_from_total p.descs p.metrics h.named
        (All-lookup (λ k s. has s.name p.descs ≡ true) p.metrics h.unique h.described_by),
    distinct p.metrics h.unique
        (All-lookup (λ k s. k ≡ metric_key s.sn s.name) p.metrics h.unique h.keyed),
  )
