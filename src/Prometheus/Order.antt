-- ===== src/Prometheus/Order.antt =====
-- prometheus.go and metric.go: the order in which Go visits the parameters of an update, which it chooses at random.
mod Tests
use go_ecoflow_exporter.Base.{
  ℕ, Text, text_eq, text_eq_iff, true, false, ◌&&◌, Option, some, none, List, [], ◌∷◌, ◌≡◌, ◌≢◌,
  refl, sym, ap, ◌∙◌, arith, All, inl, inr, Bool-cases, if◌then◌else◌,
}
use go_ecoflow_exporter.Base.Dict.{Dict}
use go_ecoflow_exporter.Base.Order.{Reordered, unchanged, kept, swapped, chained, All-Reordered}
use go_ecoflow_exporter.Name.{Unicode, NameResult, name_ok, cannot_convert, generate_metric_name}
use go_ecoflow_exporter.Name.Key.{IsSerial}
use go_ecoflow_exporter.Update.{
  Floats, EcoflowDevice, Any, Sample, to_sample, append_named, compute_samples, new_device_update,
}
use go_ecoflow_exporter.Prometheus.{PrometheusExporter, online_name, handle}
use go_ecoflow_exporter.Prometheus.Online.{value_at, latest}
use go_ecoflow_exporter.Prometheus.Board.{Board, posted}
use go_ecoflow_exporter.Prometheus.Refinement.{
  Report, Reporter, IsProper, told, values, value_at-told,
}

module _ {F64 F32 : Type 0} where
  abbrev pub Apart : Sample F64 F32 → Sample F64 F32 → Type 0
  Apart s t = s.numeric ≡ true → t.numeric ≡ true → s.name ≢ t.name

  -- No two numeric samples have the same metric name.
  abbrev pub AreApart : List (Sample F64 F32) → Type 0
  AreApart [] = Unit
  AreApart (s ∷ ss) = All (Apart s) ss × AreApart ss

  AreApart-Reordered : {ss ts : List (Sample F64 F32)} → Reordered ss ts → AreApart ss → AreApart ts
  AreApart-Reordered unchanged h = h
  AreApart-Reordered (kept s r) h = (All-Reordered (Apart s) r h.0, AreApart-Reordered r h.1)
  AreApart-Reordered (swapped s t) ((st, hs), (ht, h)) =
      (((λ nt ns e. st ns nt (sym e)), ht), (hs, h))
  AreApart-Reordered (chained r r') h = AreApart-Reordered r' (AreApart-Reordered r h)

  latest-Reordered :
      (n : Text) {ss ts : List (Sample F64 F32)} (before : Option F64)
      → Reordered ss ts
      → AreApart ss
      → latest n ss before ≡ latest n ts before
  latest-Reordered n before unchanged h = refl
  latest-Reordered n before (kept s r) h = latest-Reordered n _ r h.1
  latest-Reordered n before (swapped s t {xs = ss}) ((st, hs), h) =
      ap (latest n ss) (ground (arith, st, text_eq_iff s.name n, text_eq_iff t.name n))
  latest-Reordered n before (chained r r') h =
      latest-Reordered n before r h ∙ latest-Reordered n before r' (AreApart-Reordered r h)

module _ {F64 F32 : Type 0} (fl : Floats F64 F32) (u : Unicode) (prefix sn : Text) where
  append_named-Reordered :
      (param : Text) (raw : Any F64 F32) (r : NameResult (Text × Text))
      {ss ts : List (Sample F64 F32)}
      → Reordered ss ts
      → Reordered (append_named fl param raw r ss) (append_named fl param raw r ts)
  append_named-Reordered param raw (name_ok (name, key)) o = kept (to_sample fl param raw name) o
  append_named-Reordered param raw (cannot_convert k) o = o

  swapped_names :
      (p q : Text) (x y : Any F64 F32) (r r' : NameResult (Text × Text))
      (ss : List (Sample F64 F32))
      → Reordered
          (append_named fl p x r (append_named fl q y r' ss))
          (append_named fl q y r' (append_named fl p x r ss))
  swapped_names p q x y (name_ok (n, k)) (name_ok (n', k')) ss =
      swapped (to_sample fl p x n) (to_sample fl q y n')
  swapped_names p q x y (name_ok (n, k)) (cannot_convert k') ss = unchanged
  swapped_names p q x y (cannot_convert k) (name_ok (n', k')) ss = unchanged
  swapped_names p q x y (cannot_convert k) (cannot_convert k') ss = unchanged

  compute_samples-Reordered :
      {ps qs : Dict (Any F64 F32)}
      → Reordered ps qs
      → Reordered (compute_samples fl u prefix sn ps) (compute_samples fl u prefix sn qs)
  unfolding compute_samples
  compute_samples-Reordered unchanged = unchanged
  compute_samples-Reordered (kept (param, raw) r) =
      append_named-Reordered param raw _ (compute_samples-Reordered r)
  compute_samples-Reordered (swapped (p, x) (q, y) {xs = rest}) =
      swapped_names p q x y (generate_metric_name u p prefix sn)
        (generate_metric_name u q prefix sn) (compute_samples fl u prefix sn rest)
  compute_samples-Reordered (chained r r') =
      chained (compute_samples-Reordered r) (compute_samples-Reordered r')

posted-latest :
    {F64 F32 : Type 0} (fl : Floats F64 F32) (online : Text) (device : EcoflowDevice)
    (ss ts : List (Sample F64 F32)) (board : Board F64) (sn n : Text)
    → latest n ss (board sn n) ≡ latest n ts (board sn n)
    → posted fl online device ss board sn n ≡ posted fl online device ts board sn n
posted-latest fl online device ss ts board sn n e = rw (e) refl

module _ {F64 F32 : Type 0} (fl : Floats F64 F32) (u : Unicode) (prefix : Text) where
  -- What `Handle` makes the exporter expose does not depend on the order in which Go's range visits the parameters of the
  -- update, if no two numeric parameters of it have the same metric name. Assumed: no serial number has an underscore,
  -- and the exporter is one that updates lead to.
  pub handle-Reordered :
      (now : ℕ) (device : EcoflowDevice) (ps qs : Dict (Any F64 F32)) (p : PrometheusExporter F64)
      (sn n : Text)
      → IsProper fl u prefix p
      → IsSerial device.sn
      → IsSerial sn
      → Reordered ps qs
      → AreApart (compute_samples fl u prefix device.sn ps)
      → value_at sn n (handle fl u (new_device_update now device ps) p).2
        ≡ value_at sn n (handle fl u (new_device_update now device qs) p).2
  handle-Reordered now device ps qs p sn n ok hd hs o apart =
      let r : Report F64 F32 = record { now = now; device = device; params = ps } in
      let r' : Report F64 F32 = record { now = now; device = device; params = qs } in
      let online = online_name u prefix device.sn in
      value_at-told fl u prefix r p sn n hd ok hs
      ∙ posted-latest fl online device (compute_samples fl u prefix device.sn ps)
          (compute_samples fl u prefix device.sn qs) (values fl u prefix p) sn n
          (latest-Reordered n (value_at sn n p) (compute_samples-Reordered fl u prefix device.sn o)
            apart)
      ∙ sym (value_at-told fl u prefix r' p sn n hd ok hs)
