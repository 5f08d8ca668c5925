-- ===== src/Name/Idempotent.antt =====
-- metric.go: a converted name is a fixed point of the conversion.
use go_ecoflow_exporter.Base.{ℕ, true, false, ◌≡◌}
use go_ecoflow_exporter.Name.{is_ascii_upper, is_metric_name_rune}

-- A code point that the conversion leaves alone.
abbrev IsPlain : ℕ → Type 0
IsPlain c = (is_metric_name_rune c ≡ true) × (is_ascii_upper c ≡ false)
