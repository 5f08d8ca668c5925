-- ===== src/Name/Tests.antt =====
-- metric.go: the names of metric_test cases, and the theorems on names at examples.
use go_ecoflow_exporter.Base.{codes, ◌≡◌, refl}
use go_ecoflow_exporter.Name.{basic_latin, name_ok, generate_metric_name, written, separator}

wire_used_time :
    generate_metric_name basic_latin (codes "pd.wireUsedTime") (codes "ecoflow") (codes "R13")
    ≡ name_ok (codes "ecoflow_pd_wire_used_time", codes "R13_ecoflow_pd_wire_used_time")
unfolding generate_metric_name separator written
wire_used_time = refl
