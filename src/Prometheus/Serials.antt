-- ===== src/Prometheus/Serials.antt =====
-- prometheus.go: every series is of a device whose serial number has no underscore.
use go_ecoflow_exporter.Base.{
  Text, codes, Option, none, some, List, [], ◌∷◌, ◌≡◌, refl, inl, inr, Bool-cases,
}
use go_ecoflow_exporter.Base.Int.{pos, int_eq}
use go_ecoflow_exporter.Base.Dict.{lookup}
use go_ecoflow_exporter.Name.{Unicode}
use go_ecoflow_exporter.Name.Key.{IsSerial}
use go_ecoflow_exporter.Update.{Floats, EcoflowDevice, Sample}
use go_ecoflow_exporter.Prometheus.{
  PromSample, PrometheusExporter, metric_key, set_locked, set_samples, store,
}
use go_ecoflow_exporter.Prometheus.SetLocked.{IsWellFormed, updated, set_locked_cases}
use go_ecoflow_exporter.Prometheus.Invariant.{delete_where_old}

abbrev pub HasSerials : {V : Type 0} → PrometheusExporter V → Type 0
HasSerials {V} p = (k : Text) (s : PromSample V) → lookup k p.metrics ≡ some s → IsSerial s.sn

module _ {V : Type 0} (device : EcoflowDevice) (param name : Text) (value : V)
    (hd : IsSerial device.sn) where
  updated-IsSerial :
      (p : PrometheusExporter V) (o : Option (PromSample V))
      → HasSerials p
      → lookup (metric_key device.sn name) p.metrics ≡ o
      → IsSerial (updated device name value o).sn
  unfolding updated
  updated-IsSerial p none h e = hd
  updated-IsSerial p (some s) h e = h (metric_key device.sn name) s e

  set_locked-HasSerials :
      (p : PrometheusExporter V) → HasSerials p → HasSerials (set_locked device param name value p)
  set_locked-HasSerials p h k s l = elim (set_locked_cases device param name value p k s l) [
    | inl (_, e) ↦ rw e (updated-IsSerial p (lookup (metric_key device.sn name) p.metrics) h refl)
    | inr old ↦ h k s old
  ]

module _ {F64 F32 : Type 0} (device : EcoflowDevice) (hd : IsSerial device.sn) where
  set_samples-HasSerials :
      (ss : List (Sample F64 F32)) (p : PrometheusExporter F64)
      → HasSerials p
      → HasSerials (set_samples device ss p)
  unfolding set_samples
  set_samples-HasSerials [] p h = h
  set_samples-HasSerials (s ∷ ss) p h = elim (Bool-cases s.numeric) [
    | inl e ↦
        rw (HasSerials, e)
          (set_samples-HasSerials ss _ (set_locked-HasSerials device s.param s.name s.value hd p h))
    | inr e ↦ rw (HasSerials, e) (set_samples-HasSerials ss p h)
  ]

  pub store-HasSerials :
      (fl : Floats F64 F32) (u : Unicode) (ss : List (Sample F64 F32)) (p : PrometheusExporter F64)
      → IsWellFormed F64 p
      → HasSerials p
      → HasSerials (store fl u device ss p)
  unfolding store
  store-HasSerials fl u ss p ok h =
      set_locked-HasSerials device (codes "online") _ _ hd _
        (elim (Bool-cases (int_eq device.online (pos 0))) [
          | inl e ↦
              rw (HasSerials, e) (λ k s l. h k s (delete_where_old _ p.metrics k s ok.unique l))
          | inr e ↦ rw (HasSerials, e) (set_samples-HasSerials ss p h)
        ])
