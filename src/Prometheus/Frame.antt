-- ===== src/Prometheus/Frame.antt =====
-- prometheus.go: what `Handle` leaves of the other devices.
use go_ecoflow_exporter.Base.{
  Text, codes, text_eq_no, true, false, some, List, [], ◌∷◌, ◌≡◌, ◌≢◌, ◌↔◌, refl, sym, ◌∙◌, inl,
  inr, Bool-cases,
}
use go_ecoflow_exporter.Base.Int.{pos, int_eq}
use go_ecoflow_exporter.Base.Dict.{lookup, delete_where, lookup-delete_where}
use go_ecoflow_exporter.Name.{Unicode}
use go_ecoflow_exporter.Name.Key.{IsSerial, key_injective}
use go_ecoflow_exporter.Update.{Floats, EcoflowDevice, Sample}
use go_ecoflow_exporter.Prometheus.{
  PromSample, PrometheusExporter, metric_key, set_locked, set_samples, is_stale, online_name, store,
}
use go_ecoflow_exporter.Prometheus.SetLocked.{IsWellFormed, lookup-set_locked}
use go_ecoflow_exporter.Prometheus.Invariant.{delete_where_old, store-IsWellFormed}

-- A series of another device, under the key it has.
module _ (device : EcoflowDevice) (sn name k : Text) (other : sn ≢ device.sn) (hs : IsSerial sn)
    (hd : IsSerial device.sn) (hk : k ≡ metric_key sn name) where
  frame-set_locked :
      (V : Type 0) (param n : Text) (value : V) (p : PrometheusExporter V)
      → lookup k (set_locked device param n value p).metrics ≡ lookup k p.metrics
  frame-set_locked V param n value p =
      rw
        (
          lookup-set_locked device param n value p k,
          text_eq_no (metric_key device.sn n) k
              (λ e. other (sym (key_injective device.sn sn n name hd hs (e ∙ hk)).0)),
        )
        refl

  frame-set_samples :
      (F64 F32 : Type 0) (ss : List (Sample F64 F32)) (p : PrometheusExporter F64)
      → lookup k (set_samples device ss p).metrics ≡ lookup k p.metrics
  unfolding set_samples
  frame-set_samples F64 F32 [] p = refl
  frame-set_samples F64 F32 (s ∷ ss) p = elim (Bool-cases s.numeric) [
    | inl e ↦ rw e (frame-set_samples F64 F32 ss _ ∙ frame-set_locked F64 s.param s.name s.value p)
    | inr e ↦ rw e (frame-set_samples F64 F32 ss p)
  ]

  module _ {F64 F32 : Type 0} (fl : Floats F64 F32) (u : Unicode) (ss : List (Sample F64 F32))
      (p : PrometheusExporter F64) where
    pub frame-store_offline :
        int_eq device.online (pos 0) ≡ true
        → lookup k (store fl u device ss p).metrics
          ≡ lookup k
              (delete_where (is_stale device.sn (online_name u p.prefix device.sn)) p.metrics)
    unfolding store
    frame-store_offline off = rw off (frame-set_locked F64 (codes "online") _ _ _)

    pub frame-store_online :
        int_eq device.online (pos 0) ≡ false
        → lookup k (store fl u device ss p).metrics ≡ lookup k p.metrics
    unfolding store
    frame-store_online on = rw on (
        frame-set_locked F64 (codes "online") _ _ (set_samples device ss p)
        ∙ frame-set_samples F64 F32 ss p)

module _ {F64 F32 : Type 0} (fl : Floats F64 F32) (u : Unicode) (device : EcoflowDevice)
    (ss : List (Sample F64 F32)) (p : PrometheusExporter F64) (h : IsWellFormed F64 p)
    (hd : IsSerial device.sn) (k : Text) (s : PromSample F64) (other : s.sn ≢ device.sn)
    (hs : IsSerial s.sn) where
  kept_by_store : lookup k p.metrics ≡ some s → lookup k (store fl u device ss p).metrics ≡ some s
  kept_by_store l =
      let hk = h.keyed k s l in
      let online = online_name u p.prefix device.sn in
      elim (Bool-cases (int_eq device.online (pos 0))) [
        | inl off ↦
            frame-store_offline device s.sn s.name k other hs hd hk fl u ss p off
            ∙ lookup-delete_where (is_stale device.sn online) k p.metrics h.unique
            ∙ rw (l, text_eq_no s.sn device.sn other) refl
        | inr on ↦ frame-store_online device s.sn s.name k other hs hd hk fl u ss p on ∙ l
      ]

  old_in_store : lookup k (store fl u device ss p).metrics ≡ some s → lookup k p.metrics ≡ some s
  old_in_store l =
      let hk = (store-IsWellFormed fl u device ss p h).keyed k s l in
      elim (Bool-cases (int_eq device.online (pos 0))) [
        | inl off ↦
            delete_where_old _ p.metrics k s h.unique
              (sym (frame-store_offline device s.sn s.name k other hs hd hk fl u ss p off) ∙ l)
        | inr on ↦ sym (frame-store_online device s.sn s.name k other hs hd hk fl u ss p on) ∙ l
      ]

  -- An update of one device, online or offline, neither changes, nor adds, nor deletes a series of
  -- another device, if neither serial number has an underscore.
  pub store_frame :
      (lookup k p.metrics ≡ some s) ↔ (lookup k (store fl u device ss p).metrics ≡ some s)
  store_frame = (kept_by_store, old_in_store)
