-- ===== src/Prometheus/Invariant.antt =====
-- prometheus.go: what holds of the exporter between two calls.
use go_ecoflow_exporter.Base.{
  Text, codes, Bool, some, List, [], ◌∷◌, ◌≡◌, arith, inl, inr, Bool-cases,
}
use go_ecoflow_exporter.Base.Int.{pos, int_eq}
use go_ecoflow_exporter.Base.Dict.{
  Dict, lookup, delete_where, IsUnique, lookup-delete_where, delete_where-IsUnique,
}
use go_ecoflow_exporter.Name.{Unicode}
use go_ecoflow_exporter.Update.{Floats, EcoflowDevice, Sample, DeviceUpdate}
use go_ecoflow_exporter.Prometheus.{
  PromSample, PrometheusExporter, new_prometheus_exporter, set_samples, store, handle,
}
use go_ecoflow_exporter.Prometheus.SetLocked.{IsWellFormed, set_locked-IsWellFormed}

module _ {F64 F32 : Type 0} where
  set_samples-IsWellFormed :
      (device : EcoflowDevice) (ss : List (Sample F64 F32)) (p : PrometheusExporter F64)
      → IsWellFormed F64 p
      → IsWellFormed F64 (set_samples device ss p)
  unfolding set_samples
  set_samples-IsWellFormed device [] p h = h
  set_samples-IsWellFormed device (s ∷ ss) p h = elim (Bool-cases s.numeric) [
    | inl e ↦ rw e (
        set_samples-IsWellFormed device ss _
          (set_locked-IsWellFormed device s.param s.name s.value p h))
    | inr e ↦ rw e (set_samples-IsWellFormed device ss p h)
  ]

module _ {V : Type 0} (drop : PromSample V → Bool) where
  pub delete_where_old :
      (m : Dict (PromSample V)) (k : Text) (s : PromSample V)
      → IsUnique m
      → lookup k (delete_where drop m) ≡ some s
      → lookup k m ≡ some s
  delete_where_old m k s h l = ground (arith, lookup-delete_where drop k m h)

  pub delete_where-IsWellFormed :
      (p : PrometheusExporter V)
      → IsWellFormed V p
      → IsWellFormed V (record p { metrics = delete_where drop p.metrics })
  delete_where-IsWellFormed p h = record {
    unique = delete_where-IsUnique drop p.metrics h.unique;
    keyed = λ k s l. h.keyed k s (delete_where_old p.metrics k s h.unique l);
    named = h.named;
    described_by = λ k s l. h.described_by k s (delete_where_old p.metrics k s h.unique l);
  }

module _ {F64 F32 : Type 0} (fl : Floats F64 F32) (u : Unicode) where
  pub store-IsWellFormed :
      (device : EcoflowDevice) (ss : List (Sample F64 F32)) (p : PrometheusExporter F64)
      → IsWellFormed F64 p
      → IsWellFormed F64 (store fl u device ss p)
  unfolding store
  store-IsWellFormed device ss p h =
      set_locked-IsWellFormed device (codes "online") _ _ _
        (elim (Bool-cases (int_eq device.online (pos 0))) [
          | inl e ↦ rw e (delete_where-IsWellFormed _ p h)
          | inr e ↦ rw e (set_samples-IsWellFormed device ss p h)
        ])

  -- The exporter after the updates, oldest first.
  unfoldable pub handle_all :
      List (DeviceUpdate F64 F32) → PrometheusExporter F64 → PrometheusExporter F64
  handle_all [] p = p
  handle_all (up ∷ ups) p = handle_all ups (handle fl u up p).2

  handle_all_from-IsWellFormed :
      (ups : List (DeviceUpdate F64 F32)) (p : PrometheusExporter F64)
      → IsWellFormed F64 p
      → IsWellFormed F64 (handle_all ups p)
  unfolding handle_all handle
  handle_all_from-IsWellFormed [] p h = h
  handle_all_from-IsWellFormed (up ∷ ups) p h =
      handle_all_from-IsWellFormed ups _ (store-IsWellFormed up.device _ p h)

  pub new_prometheus_exporter-IsWellFormed :
      (prefix : Text) → IsWellFormed F64 (new_prometheus_exporter F64 prefix)
  unfolding new_prometheus_exporter lookup
  new_prometheus_exporter-IsWellFormed prefix = record {
    unique = tt;
    keyed = λ k s l. cc;
    named = λ n d l. cc;
    described_by = λ k s l. cc;
  }

  -- From a new exporter, whatever updates come: no key of the series' map stands twice, each series is
  -- stored under "<serial number>_<metric name>" of its own, and each has a descriptor of its name.
  pub handle_all-IsWellFormed :
      (prefix : Text) (ups : List (DeviceUpdate F64 F32))
      → IsWellFormed F64 (handle_all ups (new_prometheus_exporter F64 prefix))
  handle_all-IsWellFormed prefix ups =
      handle_all_from-IsWellFormed ups _ (new_prometheus_exporter-IsWellFormed prefix)
