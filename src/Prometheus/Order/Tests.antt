-- ===== src/Prometheus/Order/Tests.antt =====
-- The theorem on the order of the parameters at concrete values, and what happens without its condition.
use go_ecoflow_exporter.Base.{
  Text, codes, text_eq, Option, some, List, [], ◌∷◌, ◌≡◌, ne_of_text_eq, refl, arith,
}
use go_ecoflow_exporter.Base.Int.{ℤ, pos}
use go_ecoflow_exporter.Base.Dict.{Dict, lookup, insert}
use go_ecoflow_exporter.Name.{basic_latin, generate_metric_name, separator, written}
use go_ecoflow_exporter.Update.{
  Any, float64, to_float, to_sample, compute_samples, new_device_update,
}
use go_ecoflow_exporter.Prometheus.{
  new_prometheus_exporter, set_locked, set_samples, described, online_name, store, handle,
}
use go_ecoflow_exporter.Prometheus.Online.{value_at}
use go_ecoflow_exporter.Prometheus.Refinement.{new_prometheus_exporter-IsProper}
use go_ecoflow_exporter.Base.Order.{swapped}
use go_ecoflow_exporter.Prometheus.Order.{AreApart, handle-Reordered}
use go_ecoflow_exporter.TestData.{test_floats, delta, empty_exporter}

abbrev two_params : Dict (Any ℤ ℤ)
two_params = (codes "pd.soc", float64 (pos 77)) ∷ (codes "pd.watts", float64 (pos 5)) ∷ []

abbrev two_params_swapped : Dict (Any ℤ ℤ)
two_params_swapped = (codes "pd.watts", float64 (pos 5)) ∷ (codes "pd.soc", float64 (pos 77)) ∷ []

two_params-AreApart :
    AreApart (compute_samples test_floats basic_latin (codes "ecoflow") (codes "R331") two_params)
unfolding compute_samples to_sample generate_metric_name separator written
two_params-AreApart = (
  (
    (λ s t.
        ne_of_text_eq (codes "ecoflow_pd_soc") (codes "ecoflow_pd_watts") (unfold text_eq in refl)),
    tt,
  ),
  (tt, tt),
)

handle-Reordered_example :
    value_at
      (codes "R331")
      (codes "ecoflow_pd_soc")
      (handle test_floats basic_latin
        (new_device_update 1 delta two_params)
        (new_prometheus_exporter ℤ (codes "ecoflow"))).2
    ≡ value_at
        (codes "R331")
        (codes "ecoflow_pd_soc")
        (handle test_floats basic_latin
          (new_device_update 1 delta two_params_swapped)
          (new_prometheus_exporter ℤ (codes "ecoflow"))).2
handle-Reordered_example =
    handle-Reordered test_floats basic_latin (codes "ecoflow") 1 delta two_params two_params_swapped
      (new_prometheus_exporter ℤ (codes "ecoflow")) (codes "R331") (codes "ecoflow_pd_soc")
      (new_prometheus_exporter-IsProper test_floats basic_latin (codes "ecoflow")) (omega arith)
      (omega arith) (swapped (codes "pd.soc", float64 (pos 77)) (codes "pd.watts", float64 (pos 5)))
      two_params-AreApart

-- Two parameters whose names convert to the same metric name, in either order.
abbrev collision : List (Text × Any ℤ ℤ) → Option ℤ
collision params = value_at (codes "R331") (codes "ecoflow_pd_soc") (
    store test_floats basic_latin delta
      (compute_samples test_floats basic_latin (codes "ecoflow") (codes "R331") params)
      empty_exporter)

last_of_two :
    (collision ((codes "pd.soc", float64 (pos 1)) ∷ (codes "pdSoc", float64 (pos 2)) ∷ [])
      ≡ some (pos 2))
    × (collision ((codes "pdSoc", float64 (pos 2)) ∷ (codes "pd.soc", float64 (pos 1)) ∷ [])
        ≡ some (pos 1))
unfolding value_at store set_locked set_samples online_name compute_samples to_sample to_float
    generate_metric_name separator written lookup insert described text_eq
last_of_two = (refl, refl)
