-- ===== src/Mqtt/Events/Silent.antt =====
-- mqtt_exporter.go: what a round of the monitor makes the Prometheus exporter expose.
use go_ecoflow_exporter.Base.{
  ℕ, Text, text_eq, text_eq_iff, Option, none, some, List, [], ◌∷◌, ◌≡◌, refl, ap, ◌∙◌, inl, inr,
  arith, All, Bool-cases, if◌then◌else◌,
}
use go_ecoflow_exporter.Base.Int.{pos}
use go_ecoflow_exporter.Base.Dict.{Dict}
use go_ecoflow_exporter.Name.{Unicode}
use go_ecoflow_exporter.Name.Key.{IsSerial}
use go_ecoflow_exporter.Update.{
  Floats, DeviceUpdate, get_device_name, dispatch, safe_handle, new_device_update, compute_samples,
  MetricHandler,
}
use go_ecoflow_exporter.Prometheus.{PrometheusExporter, handle, online_name}
use go_ecoflow_exporter.Prometheus.Online.{value_at}
use go_ecoflow_exporter.Prometheus.Refinement.{
  Report, IsProper, told, told-IsProper, value_at-told, values, post,
}
use go_ecoflow_exporter.Mqtt.Status.Updates.{contains}
use go_ecoflow_exporter.Mqtt.Monitor.{send_offline}

module _ {F64 F32 : Type 0} (fl : Floats F64 F32) (u : Unicode) (prefix : Text) where
  -- The Prometheus exporter is the only handler, as in main.go.
  abbrev pub prom_only : List (MetricHandler (PrometheusExporter F64) (DeviceUpdate F64 F32))
  prom_only = handle fl u ∷ []

  -- What is exposed of a silent device.
  abbrev pub silent : Text → Text → Option F64
  silent sn n = if text_eq (online_name u prefix sn) n then some (fl.of_int (pos 0)) else none

  abbrev pub lost : ℕ → Dict Text → Text → Report F64 F32
  lost now devices sn = record {
    now = now;
    device = record { sn = sn; name = get_device_name devices sn; online = pos 0 };
    params = [];
  }

  pub dispatch-prom_only :
      (r : Report F64 F32) (p : PrometheusExporter F64)
      → (dispatch prom_only (new_device_update r.now r.device r.params) p).2 ≡ told fl u prefix r p
  unfolding dispatch safe_handle
  dispatch-prom_only r p = refl

  module _ (now : ℕ) (devices : Dict Text) where
    post-lost :
        (x sn n : Text) (p : PrometheusExporter F64)
        → post fl u prefix (lost now devices x) (values fl u prefix p) sn n
          ≡ (if text_eq x sn then silent sn n else value_at sn n p)
    unfolding compute_samples
    post-lost x sn n p = elim (Bool-cases (text_eq x sn)) [
      | inl e ↦ rw (e, (text_eq_iff x sn).0 e) refl
      | inr e ↦ rw (e) refl
    ]

    pub send_offline-IsProper :
        (due : List Text) (p : PrometheusExporter F64)
        → All IsSerial due
        → IsProper fl u prefix p
        → IsProper fl u prefix (send_offline now devices prom_only due p)
    unfolding send_offline
    send_offline-IsProper [] p hs ok = ok
    send_offline-IsProper (x ∷ due) p (h, hs) ok = send_offline-IsProper due _ hs (
        rw (dispatch-prom_only (lost now devices x) p)
          (told-IsProper fl u prefix (lost now devices x) p h ok))

    pub value_at-send_offline :
        (due : List Text) (p : PrometheusExporter F64) (sn n : Text)
        → All IsSerial due
        → IsSerial sn
        → IsProper fl u prefix p
        → value_at sn n (send_offline now devices prom_only due p)
          ≡ (if contains sn due then silent sn n else value_at sn n p)
    unfolding send_offline contains
    value_at-send_offline [] p sn n hs h ok = refl
    value_at-send_offline (x ∷ due) p sn n (hx, hs) h ok =
        let p' = told fl u prefix (lost now devices x) p in
        ap (λ q. value_at sn n (send_offline now devices prom_only due q))
          (dispatch-prom_only (lost now devices x) p)
        ∙ value_at-send_offline due p' sn n hs h
            (told-IsProper fl u prefix (lost now devices x) p hx ok)
        ∙ ground (
          arith,
          value_at-told fl u prefix (lost now devices x) p sn n hx ok h,
          post-lost x sn n p,
        )
