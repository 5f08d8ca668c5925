-- ===== src/Prometheus/Refinement.antt =====
-- prometheus.go: the exporter against its specification, from the first report of a device to the last.
use go_ecoflow_exporter.Base.{
  ℕ, Text, none, List, [], ◌∷◌, ◌≡◌, refl, ap, ◌∙◌, All, inl, inr, Bool-cases, Option-cases,
}
use go_ecoflow_exporter.Base.Int.{pos, int_eq}
use go_ecoflow_exporter.Base.Dict.{Dict, lookup}
use go_ecoflow_exporter.Name.{Unicode}
use go_ecoflow_exporter.Name.Key.{IsSerial}
use go_ecoflow_exporter.Update.{
  Floats, EcoflowDevice, Any, Sample, DeviceUpdate, compute_samples, new_device_update,
}
use go_ecoflow_exporter.Update.Samples.{samples_of_lem, new_device_update-IsCached}
use go_ecoflow_exporter.Prometheus.{
  PrometheusExporter, metric_key, new_prometheus_exporter, set_locked, set_samples, online_name,
  store, handle,
}
use go_ecoflow_exporter.Prometheus.SetLocked.{IsWellFormed}
use go_ecoflow_exporter.Prometheus.Invariant.{
  handle_all, store-IsWellFormed, new_prometheus_exporter-IsWellFormed,
}
use go_ecoflow_exporter.Prometheus.Online.{value_at}
use go_ecoflow_exporter.Prometheus.Serials.{HasSerials, store-HasSerials}
use go_ecoflow_exporter.Prometheus.Board.{Board, posted, value_at-store}

prefix-set_locked :
    {V : Type 0} (device : EcoflowDevice) (param name : Text) (value : V) (p : PrometheusExporter V)
    → (set_locked device param name value p).prefix ≡ p.prefix
unfolding set_locked
prefix-set_locked device param name value p =
    elim (Option-cases (lookup (metric_key device.sn name) p.metrics)) [
      | inl e ↦ rw e refl
      | inr (s, e) ↦ rw e refl
    ]

module _ {F64 F32 : Type 0} where
  prefix-set_samples :
      (device : EcoflowDevice) (ss : List (Sample F64 F32)) (p : PrometheusExporter F64)
      → (set_samples device ss p).prefix ≡ p.prefix
  unfolding set_samples
  prefix-set_samples device [] p = refl
  prefix-set_samples device (s ∷ ss) p = elim (Bool-cases s.numeric) [
    | inl e ↦
        rw (e) (prefix-set_samples device ss _ ∙ prefix-set_locked device s.param s.name s.value p)
    | inr e ↦ rw (e) (prefix-set_samples device ss p)
  ]

-- What a handler is told: the time, the device and its parameters.
pub record Report (F64 F32 : Type 0) : Type 0 where
  pub now : ℕ
  pub device : EcoflowDevice
  pub params : Dict (Any F64 F32)

module _ {F64 F32 : Type 0} where
  abbrev pub updates : List (Report F64 F32) → List (DeviceUpdate F64 F32)
  updates [] = []
  updates (r ∷ rs) = new_device_update r.now r.device r.params ∷ updates rs

  abbrev pub Reporter : Report F64 F32 → Type 0
  Reporter r = IsSerial r.device.sn

module _ {F64 F32 : Type 0} (fl : Floats F64 F32) (u : Unicode) (prefix : Text) where
  prefix-store :
      (device : EcoflowDevice) (ss : List (Sample F64 F32)) (p : PrometheusExporter F64)
      → (store fl u device ss p).prefix ≡ p.prefix
  unfolding store
  prefix-store device ss p = elim (Bool-cases (int_eq device.online (pos 0))) [
    | inl e ↦ rw (e) (prefix-set_locked device _ _ _ _)
    | inr e ↦ rw (e) (prefix-set_locked device _ _ _ _ ∙ prefix-set_samples device ss p)
  ]

  -- The board after one report, and after all of them.
  abbrev pub post : Report F64 F32 → Board F64 → Board F64
  post r =
      posted fl (online_name u prefix r.device.sn) r.device
        (compute_samples fl u prefix r.device.sn r.params)

  abbrev pub board_after : List (Report F64 F32) → Board F64 → Board F64
  board_after [] board = board
  board_after (r ∷ rs) board = board_after rs (post r board)

  -- What an exporter keeps from its start on.
  pub record IsProper (p : PrometheusExporter F64) : Type 0 where
    pub prefixed : p.prefix ≡ prefix
    pub well_formed : IsWellFormed F64 p
    pub serials : HasSerials p

  -- The exporter after one report.
  abbrev pub told : Report F64 F32 → PrometheusExporter F64 → PrometheusExporter F64
  told r p = (handle fl u (new_device_update r.now r.device r.params) p).2

  abbrev pub values : PrometheusExporter F64 → Board F64
  values p sn n = value_at sn n p

  told-store :
      (r : Report F64 F32) (p : PrometheusExporter F64)
      → told r p ≡ store fl u r.device (compute_samples fl u p.prefix r.device.sn r.params) p
  unfolding handle new_device_update
  told-store r p =
      ap (λ ss. store fl u r.device ss p)
        ((samples_of_lem fl u p.prefix _
          (new_device_update-IsCached fl u r.now r.device r.params)).0)

  pub told-IsProper :
      (r : Report F64 F32) (p : PrometheusExporter F64)
      → Reporter r
      → IsProper p
      → IsProper (told r p)
  told-IsProper r p h ok =
      let ss = compute_samples fl u p.prefix r.device.sn r.params in
      rw (told-store r p) (record {
        prefixed = prefix-store r.device ss p ∙ ok.prefixed;
        well_formed = store-IsWellFormed fl u r.device ss p ok.well_formed;
        serials = store-HasSerials r.device h fl u ss p ok.well_formed ok.serials;
      })

  pub value_at-told :
      (r : Report F64 F32) (p : PrometheusExporter F64) (sn n : Text)
      → Reporter r
      → IsProper p
      → IsSerial sn
      → value_at sn n (told r p) ≡ post r (values p) sn n
  value_at-told r p sn n h ok hs =
      let ss = compute_samples fl u p.prefix r.device.sn r.params in
      ap (value_at sn n) (told-store r p)
      ∙ value_at-store fl u r.device h ss p ok.well_formed ok.serials sn n hs
      ∙ rw (ok.prefixed) refl

  pub new_prometheus_exporter-IsProper : IsProper (new_prometheus_exporter F64 prefix)
  unfolding new_prometheus_exporter lookup
  new_prometheus_exporter-IsProper = record {
    prefixed = refl;
    well_formed = new_prometheus_exporter-IsWellFormed fl u prefix;
    serials = λ k s l. absurd (cc);
  }

  module _ (sn n : Text) where
    board_after_local :
        (rs : List (Report F64 F32)) (b b' : Board F64)
        → b sn n ≡ b' sn n
        → board_after rs b sn n ≡ board_after rs b' sn n
    board_after_local [] b b' e = e
    board_after_local (r ∷ rs) b b' e = board_after_local rs (post r b) (post r b') (rw (e) refl)

    board_from :
        (rs : List (Report F64 F32)) (p : PrometheusExporter F64)
        → IsProper p
        → All Reporter rs
        → IsSerial sn
        → value_at sn n (handle_all fl u (updates rs) p) ≡ board_after rs (values p) sn n
    unfolding handle_all
    board_from [] p ok hr hs = refl
    board_from (r ∷ rs) p ok (h, hr) hs =
        board_from rs (told r p) (told-IsProper r p h ok) hr hs
        ∙ board_after_local rs (values (told r p)) (post r (values p))
            (value_at-told r p sn n h ok hs)

  -- From a new exporter, after any reports of devices, the value of a series is the one of the board
  -- that starts empty and on which each report, in order, does this: a report of an online device
  -- writes its last numeric sample of each name, and leaves the device's other names; one of an
  -- offline device clears the device; either writes the status under `online`; and no report touches
  -- another device. Assumed: no serial number has an underscore.
  pub handle_all-board_after :
      (rs : List (Report F64 F32)) (sn n : Text)
      → All Reporter rs
      → IsSerial sn
      → value_at sn n (handle_all fl u (updates rs) (new_prometheus_exporter F64 prefix))
        ≡ board_after rs (λ s m. none) sn n
  handle_all-board_after rs sn n hr hs =
      board_from sn n rs (new_prometheus_exporter F64 prefix) new_prometheus_exporter-IsProper hr hs
      ∙ board_after_local sn n rs _ (λ s m. none)
          (unfold new_prometheus_exporter lookup value_at in refl)
