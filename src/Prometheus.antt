-- ===== src/Prometheus.antt =====
-- prometheus.go: the exporter that keeps the latest value of every device parameter.
pub mod SetLocked
pub mod Invariant
pub mod Online
pub mod Frame
pub mod Collect
pub mod Serials
pub mod Board
pub mod Refinement
pub mod Order
mod Tests
use go_ecoflow_exporter.Base.{
  Text, codes, text_eq, underscore, Bool, true, false, not, ◌&&◌, Option, none, some, List, [], ◌∷◌,
  ◌++◌, if◌then◌else◌,
}
use go_ecoflow_exporter.Base.Int.{pos, int_eq}
use go_ecoflow_exporter.Base.Dict.{Dict, lookup, insert, delete_where, has}
use go_ecoflow_exporter.Name.{Unicode, NameResult, name_ok, cannot_convert, generate_metric_name}
use go_ecoflow_exporter.Update.{
  Floats, EcoflowDevice, Sample, DeviceUpdate, samples_of, returned, MetricHandler,
}

-- promSample
pub record PromSample (V : Type 0) : Type 0 where
  pub sn : Text
  pub device : Text
  pub name : Text
  pub value : V

-- What `prometheus.NewDesc` is given that is no constant: the metric's name, and the parameter that the
-- help text quotes.
pub record Desc : Type 0 where
  pub fq_name : Text
  pub help_param : Text

pub record PrometheusExporter (V : Type 0) : Type 0 where
  pub prefix : Text  -- Config.Prefix
  pub metrics : Dict (PromSample V)
  pub descs : Dict Desc

-- deviceMetricName
abbrev pub metric_key : Text → Text → Text
metric_key sn name = sn ++ underscore ∷ name

unfoldable pub new_prometheus_exporter : (V : Type 0) → Text → PrometheusExporter V
new_prometheus_exporter V prefix = record { prefix = prefix; metrics = []; descs = [] }

-- The descriptor of a metric is made once, for the parameter that is seen first.
unfoldable pub described : Text → Text → Dict Desc → Dict Desc
described param metric_name descs =
    if has metric_name descs
    then descs
    else insert metric_name (record { fq_name = metric_name; help_param = param }) descs

module _ {V : Type 0} where
  abbrev pub set_found :
      EcoflowDevice
      → Text
      → Text
      → V
      → PrometheusExporter V
      → Option (PromSample V)
      → PrometheusExporter V
  set_found device param name value p (some s) = record p {
    metrics = insert (metric_key device.sn name) (record s { value = value }) p.metrics;
  }
  set_found device param name value p none = record p {
    descs = described param name p.descs;
    metrics =
        insert (metric_key device.sn name)
          (record { sn = device.sn; device = device.name; name = name; value = value }) p.metrics;
  }

  unfoldable pub set_locked :
      EcoflowDevice → Text → Text → V → PrometheusExporter V → PrometheusExporter V
  set_locked device param name value p =
      set_found device param name value p (lookup (metric_key device.sn name) p.metrics)

module _ {F64 F32 : Type 0} where
  -- The loop over the samples of an online device.
  unfoldable pub set_samples :
      EcoflowDevice → List (Sample F64 F32) → PrometheusExporter F64 → PrometheusExporter F64
  set_samples device [] p = p
  set_samples device (s ∷ ss) p =
      set_samples device ss (if s.numeric then set_locked device s.param s.name s.value p else p)

-- The condition under which a series of an offline device is deleted.
abbrev pub is_stale : {V : Type 0} → Text → Text → PromSample V → Bool
is_stale sn online_name s = text_eq s.sn sn && not (text_eq s.name online_name)

-- The name of the `online` series; an error of the conversion is ignored and leaves "".
abbrev name_or_empty : NameResult (Text × Text) → Text
name_or_empty (name_ok (name, _)) = name
name_or_empty (cannot_convert _) = []

unfoldable pub online_name : Unicode → Text → Text → Text
online_name u prefix sn = name_or_empty (generate_metric_name u (codes "online") prefix sn)

module _ {F64 F32 : Type 0} (fl : Floats F64 F32) (u : Unicode) where
  -- The body of `Handle` once the samples are there.
  unfoldable pub store :
      EcoflowDevice → List (Sample F64 F32) → PrometheusExporter F64 → PrometheusExporter F64
  store device samples p =
      let online = online_name u p.prefix device.sn in
      set_locked device (codes "online") online (fl.of_int device.online) (
        if int_eq device.online (pos 0)
        then record p { metrics = delete_where (is_stale device.sn online) p.metrics }
        else set_samples device samples p)

  -- `Handle`, which returns no error.
  unfoldable pub handle : MetricHandler (PrometheusExporter F64) (DeviceUpdate F64 F32)
  handle up p =
      let (samples, up') = samples_of fl u p.prefix up in
      (returned none, up', store up.device samples p)

-- `prometheus.NewConstMetric` and `NewInvalidMetric`.
pub record Metrics (V M : Type 0) : Type 0 where
  pub new_const_metric : Desc → V → Text → Text → Option M
  pub new_invalid_metric : Desc → M

module _ {V M : Type 0} (lib : Metrics V M) where
  abbrev pub const_or_invalid : Desc → Option M → M
  const_or_invalid d (some m) = m
  const_or_invalid d none = lib.new_invalid_metric d

  abbrev pub send : PromSample V → Option Desc → Option (List M) → Option (List M)
  send s none rest = none
  send s (some d) none = none
  send s (some d) (some ms) =
      some (const_or_invalid d (lib.new_const_metric d s.value s.device s.sn) ∷ ms)

  -- `none` is the panic of a nil descriptor.
  unfoldable pub collect_from : Dict Desc → Dict (PromSample V) → Option (List M)
  collect_from descs [] = some []
  collect_from descs ((k, s) ∷ ms) = send s (lookup s.name descs) (collect_from descs ms)

  unfoldable pub collect : PrometheusExporter V → Option (List M)
  unfolding collect_from
  collect p = collect_from p.descs p.metrics
