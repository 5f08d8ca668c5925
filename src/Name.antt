-- ===== src/Name.antt =====
-- metric.go: the conversion of EcoFlow parameter names to Prometheus metric names.
-- A string is the list of its code points, as `range` over it gives them.
pub mod Valid
pub mod Idempotent
pub mod Key
mod Tests
use go_ecoflow_exporter.Base.{
  ℕ, ◌+◌, ◌<◌, Text, codes, underscore, dot, Bool, true, false, not, ◌&&◌, ◌||◌, Option, none, some,
  List, [], ◌∷◌, ◌++◌, ◌≡◌, refl, arith, leb, ltb, ◌==◌, if◌then◌else◌,
}

-- Go's `unicode` package: its tables are not part of the program.
pub record Unicode : Type 0 where
  pub is_upper : ℕ → Bool
  pub to_lower : ℕ → ℕ

abbrev pub is_ascii_upper : ℕ → Bool
is_ascii_upper c = leb b'A' c && leb c b'Z'

-- What the documentation of the package says of Basic Latin, and that lower case has no upper case
-- letter of Basic Latin.
pub record IsDocumented (u : Unicode) : Type 0 where
  pub upper_basic : (c : ℕ) → c < 128 → u.is_upper c ≡ is_ascii_upper c
  pub lower_basic : (c : ℕ) → is_ascii_upper c ≡ true → u.to_lower c ≡ c + 32
  pub lower_not_upper : (c : ℕ) → is_ascii_upper (u.to_lower c) ≡ false

unfoldable pub is_metric_name_rune : ℕ → Bool
is_metric_name_rune r =
    r == b'_'
    || r == b':'
    || (leb b'a' r && leb r b'z')
    || (leb b'A' r && leb r b'Z')
    || (leb b'0' r && leb r b'9')

-- `[a-zA-Z_:]`
unfoldable pub is_start_rune : ℕ → Bool
is_start_rune r = r == b'_' || r == b':' || (leb b'a' r && leb r b'z') || (leb b'A' r && leb r b'Z')

-- `[a-zA-Z0-9_:]*`
unfoldable pub all_name_runes : Text → Bool
all_name_runes [] = true
all_name_runes (c ∷ cs) = (is_start_rune c || (leb b'0' c && leb c b'9')) && all_name_runes cs

-- config.go's pattern of a prefix, which is Prometheus' pattern of a metric name
unfoldable pub metric_prefix_pattern : Text → Bool
metric_prefix_pattern [] = false
metric_prefix_pattern (c ∷ cs) = is_start_rune c && all_name_runes cs

-- The error of a failed conversion carries the parameter's name.
pub data NameResult (A : Type 0) : Type 0 where
  name_ok : A → NameResult A
  cannot_convert : Text → NameResult A

module _ (u : Unicode) where
  -- the two assignments to `r` of the loop's body
  unfoldable pub lowered : ℕ → ℕ
  lowered r = if u.is_upper r then u.to_lower r else if r == dot then underscore else r

  unfoldable pub written : ℕ → ℕ
  unfolding lowered is_metric_name_rune
  written r = let l = lowered r in if is_metric_name_rune l then l else underscore

  -- the underscore that goes in front of an upper case letter; `first` is `i == 0`
  unfoldable pub separator : Bool → Bool → ℕ → Text
  separator first last_underscore r =
      if u.is_upper r && (not first && not last_underscore) then underscore ∷ [] else []

  unfoldable pub convert : Bool → Bool → Text → Text
  convert first last_underscore [] = []
  convert first last_underscore (r ∷ rs) =
      separator first last_underscore r ++ written r ∷ convert false (written r == underscore) rs

  unfoldable pub ecoflow_param_to_prometheus_metric : Text → NameResult Text
  unfolding convert
  ecoflow_param_to_prometheus_metric [] = cannot_convert []
  ecoflow_param_to_prometheus_metric (r ∷ rs) = name_ok (convert true false (r ∷ rs))

  abbrev pub qualified : Text → Text → Text → Text × Text
  qualified prefix device_sn name =
      let metric_name = prefix ++ underscore ∷ name in
      (metric_name, device_sn ++ underscore ∷ metric_name)

  abbrev pub with_names : Text → Text → NameResult Text → NameResult (Text × Text)
  with_names prefix device_sn (name_ok name) = name_ok (qualified prefix device_sn name)
  with_names prefix device_sn (cannot_convert k) = cannot_convert k

  -- metricName and deviceMetricName
  unfoldable pub generate_metric_name : Text → Text → Text → NameResult (Text × Text)
  unfolding ecoflow_param_to_prometheus_metric
  generate_metric_name raw_metric prefix device_sn =
      with_names prefix device_sn (ecoflow_param_to_prometheus_metric raw_metric)

-- The tables for Basic Latin alone.
abbrev pub basic_latin : Unicode
basic_latin = record {
  is_upper = is_ascii_upper;
  to_lower = λ c. if is_ascii_upper c then c + 32 else c;
}

pub basic_latin-IsDocumented : IsDocumented basic_latin
basic_latin-IsDocumented = record {
  upper_basic = λ c h. refl;
  lower_basic = λ c h. ground arith;
  lower_not_upper = λ c. ground arith;
}
