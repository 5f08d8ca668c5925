-- ===== src/Update/Tests.antt =====
-- metric.go: updates at examples.
use go_ecoflow_exporter.Base.{
  Text, codes, Bool, true, false, none, List, [], ◌∷◌, ◌≡◌, refl, All, ◌+◌, ℕ,
}
use go_ecoflow_exporter.Base.Int.{ℤ, pos}
use go_ecoflow_exporter.Name.{
  basic_latin, metric_prefix_pattern, is_start_rune, all_name_runes, generate_metric_name,
  separator, written,
}
use go_ecoflow_exporter.Update.{
  EcoflowDevice, new_device_update, Sample, returned, panicked, MetricHandler, dispatch,
  safe_handle, compute_samples, to_sample,
}
use go_ecoflow_exporter.Update.Samples.{
  read_all, computed_all, read_all-computed_all, named, Describes, described, compute_samples_exact,
}
use go_ecoflow_exporter.TestData.{test_floats, test_params}

abbrev map_numeric : List (Sample ℤ ℤ) → List (Text × Bool)
map_numeric [] = []
map_numeric (s ∷ ss) = (s.name, s.numeric) ∷ map_numeric ss

-- The nameless parameter is skipped, and a text is no number.
samples_of_test_params :
    map_numeric
      (compute_samples test_floats basic_latin (codes "ecoflow") (codes "R331") test_params)
    ≡ (codes "ecoflow_pd_soc", true) ∷ (codes "ecoflow_name", false) ∷ []
unfolding compute_samples generate_metric_name separator written to_sample
samples_of_test_params = refl

compute_samples_exact_example :
    (described
        (compute_samples test_floats basic_latin (codes "ecoflow") (codes "R331") test_params)
      ≡ named test_params)
    × All
        (Describes test_floats basic_latin (codes "ecoflow") (codes "R331"))
        (compute_samples test_floats basic_latin (codes "ecoflow") (codes "R331") test_params)
compute_samples_exact_example =
    compute_samples_exact test_floats basic_latin (codes "ecoflow") (codes "R331") test_params
      (unfold metric_prefix_pattern is_start_rune all_name_runes in refl)

abbrev test_device : EcoflowDevice
test_device = record { sn = codes "R331"; name = codes "Delta 2"; online = pos 1 }

abbrev prefixes : List Text
prefixes = codes "ecoflow" ∷ codes "other" ∷ codes "ecoflow" ∷ []

read_all-computed_all_example :
    read_all test_floats basic_latin prefixes (new_device_update 7 test_device test_params)
    ≡ computed_all test_floats basic_latin prefixes test_device test_params
read_all-computed_all_example =
    read_all-computed_all test_floats basic_latin prefixes 7 test_device test_params

-- A handler that counts, and one that counts and panics.
abbrev counting : MetricHandler ℕ Text
counting up w = (returned none, up, w + 1)

abbrev panicking : MetricHandler ℕ Text
panicking up w = (panicked (codes "boom"), up, w + 10)

abbrev handlers : List (MetricHandler ℕ Text)
handlers = panicking ∷ counting ∷ []

panic_is_survived : dispatch handlers (codes "up") 0 ≡ (codes "panic: boom" ∷ [], codes "up", 11)
unfolding dispatch safe_handle
panic_is_survived = refl
