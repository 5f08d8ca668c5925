-- ===== src/Prometheus/Tests.antt =====
-- prometheus.go: two devices, one of which goes offline.
use go_ecoflow_exporter.Base.{
  Text, codes, text_eq, none, some, List, [], ◌∷◌, ◌≡◌, ◌≢◌, ne_of_text_eq, refl, arith,
}
use go_ecoflow_exporter.Base.Int.{ℤ, pos}
use go_ecoflow_exporter.Base.Dict.{lookup, keys, insert, delete_where}
use go_ecoflow_exporter.Name.{basic_latin, generate_metric_name, separator, written}
use go_ecoflow_exporter.Prometheus.{
  PromSample, PrometheusExporter, Metrics, new_prometheus_exporter, set_locked, set_samples,
  described, online_name, store, collect,
}
use go_ecoflow_exporter.Prometheus.SetLocked.{IsWellFormed}
use go_ecoflow_exporter.Prometheus.Invariant.{
  handle_all, handle_all-IsWellFormed, store-IsWellFormed,
}
use go_ecoflow_exporter.Prometheus.Online.{value_at}
use go_ecoflow_exporter.Prometheus.Refinement.{Report, updates, board_after, handle_all-board_after}
use go_ecoflow_exporter.Prometheus.Collect.{Reports, AreDistinct, collect_total}
use go_ecoflow_exporter.TestData.{
  test_floats, delta, delta_off, river, test_params, test_update, empty_exporter, filled_exporter,
}

filled_keys :
    keys filled_exporter.metrics
    ≡ codes "R331_ecoflow_pd_soc"
      ∷ codes "R331_ecoflow_online"
      ∷ codes "R601_ecoflow_pd_soc"
      ∷ codes "R601_ecoflow_online"
      ∷ []
unfolding store set_locked set_samples online_name generate_metric_name separator written lookup
    insert keys described text_eq
filled_keys = refl

abbrev after_loss : PrometheusExporter ℤ
after_loss = store test_floats basic_latin delta_off [] filled_exporter

loss_keys :
    keys after_loss.metrics
    ≡ codes "R331_ecoflow_online" ∷ codes "R601_ecoflow_pd_soc" ∷ codes "R601_ecoflow_online" ∷ []
unfolding store set_locked set_samples online_name generate_metric_name separator written lookup
    insert keys described delete_where text_eq
loss_keys = refl

handle_all-IsWellFormed_example : IsWellFormed ℤ (
    handle_all test_floats basic_latin
      (test_update ∷ [])
      (new_prometheus_exporter ℤ (codes "ecoflow")))
handle_all-IsWellFormed_example =
    handle_all-IsWellFormed test_floats basic_latin (codes "ecoflow") (test_update ∷ [])

empty-IsWellFormed : IsWellFormed ℤ empty_exporter
unfolding lookup
empty-IsWellFormed = record {
  unique = tt;
  keyed = λ k s l. cc;
  named = λ n d l. cc;
  described_by = λ k s l. cc;
}

filled-IsWellFormed : IsWellFormed ℤ filled_exporter
filled-IsWellFormed =
    store-IsWellFormed test_floats basic_latin river _ _
      (store-IsWellFormed test_floats basic_latin delta _ _ empty-IsWellFormed)

abbrev off_series : PromSample ℤ
off_series = record {
  sn = codes "R331";
  device = codes "Delta 2";
  name = codes "ecoflow_online";
  value = pos 0;
}

off_series_left : lookup (codes "R331_ecoflow_online") after_loss.metrics ≡ some off_series
unfolding store set_locked set_samples online_name generate_metric_name separator written lookup
    insert described delete_where text_eq
off_series_left = refl

abbrev river_series : PromSample ℤ
river_series = record {
  sn = codes "R601";
  device = codes "River";
  name = codes "ecoflow_pd_soc";
  value = pos 77;
}

different : codes "R601" ≢ codes "R331"
different = ne_of_text_eq (codes "R601") (codes "R331") (unfold text_eq in refl)

-- A metric as the descriptor's name, the value and the labels.
abbrev tuples : Metrics ℤ (Text × ℤ × Text × Text)
tuples = record {
  new_const_metric = λ d v device sn. some (d.fq_name, v, device, sn);
  new_invalid_metric = λ d. (d.fq_name, pos 0, [], []);
}

collect_total_example :
    ((ms : List (Text × ℤ × Text × Text)) × (collect tuples filled_exporter ≡ some ms)
      × Reports tuples filled_exporter.metrics ms)
    × AreDistinct filled_exporter.metrics
collect_total_example = collect_total tuples filled_exporter filled-IsWellFormed

-- Delta reports, then goes offline.
abbrev two_reports : List (Report ℤ ℤ)
two_reports =
    record { now = 1; device = delta; params = test_params }
    ∷ record { now = 2; device = delta_off; params = [] }
    ∷ []

handle_all-board_after_example :
    value_at (codes "R331") (codes "ecoflow_pd_soc") (
      handle_all test_floats basic_latin
        (updates two_reports)
        (new_prometheus_exporter ℤ (codes "ecoflow")))
    ≡ board_after test_floats basic_latin
        (codes "ecoflow")
        two_reports
        (λ s m. none)
        (codes "R331")
        (codes "ecoflow_pd_soc")
handle_all-board_after_example =
    handle_all-board_after test_floats basic_latin (codes "ecoflow") two_reports (codes "R331")
      (codes "ecoflow_pd_soc") (omega arith, (omega arith, tt)) (omega arith)
