-- ===== src/Update.antt =====
-- metric.go: device updates, their samples and the passing of an update to the metric handlers.
pub mod Samples
pub mod Dispatch
mod Tests
use go_ecoflow_exporter.Base.{
  ℕ, Text, codes, Bool, true, false, Option, none, some, List, [], ◌∷◌, ◌++◌, ◌≡◌,
}
use go_ecoflow_exporter.Base.Int.{ℤ, pos}
use go_ecoflow_exporter.Base.Dict.{Dict, lookup, insert}
use go_ecoflow_exporter.Name.{Unicode, NameResult, name_ok, cannot_convert, generate_metric_name}

-- Go's float64, float32 and the conversions that the program makes, which the hardware gives.
pub record Floats (F64 F32 : Type 0) : Type 0 where
  pub widen : F32 → F64
  pub of_int : ℤ → F64
  -- json.Number's Float64, `none` for its error; and what it returns beside that error
  pub parse : Text → Option F64
  pub parse_rest : Text → F64

pub record EcoflowDevice : Type 0 where
  pub sn : Text
  pub name : Text
  pub online : ℤ

-- The dynamic types that a parameter's value may have. Of strings, arrays and objects the program
-- reads nothing.
pub data Any (F64 F32 : Type 0) : Type 0 where
  float64 : F64 → Any F64 F32
  float32 : F32 → Any F64 F32
  int int32 int64 : ℤ → Any F64 F32
  uint32 uint64 : ℕ → Any F64 F32
  json_number : Text → Any F64 F32
  boolean : Bool → Any F64 F32
  string array object : Text → Any F64 F32
  nil : Any F64 F32

pub record Sample (F64 F32 : Type 0) : Type 0 where
  pub param : Text
  pub name : Text
  pub raw : Any F64 F32
  pub value : F64
  pub numeric : Bool

-- `time` is a reading of the clock in nanoseconds.
pub record DeviceUpdate (F64 F32 : Type 0) : Type 0 where
  pub device : EcoflowDevice
  pub time : ℕ
  pub params : Dict (Any F64 F32)
  pub samples : Dict (List (Sample F64 F32))

unfoldable pub get_device_name : Dict Text → Text → Text
get_device_name mapping sn = elim (lookup sn mapping) [ some name ↦ name | none ↦ sn ]

module _ {F64 F32 : Type 0} where
  unfoldable pub new_device_update : ℕ → EcoflowDevice → Dict (Any F64 F32) → DeviceUpdate F64 F32
  new_device_update now device params = record {
    device = device;
    time = now;
    params = params;
    samples = [];
  }

module _ {F64 F32 : Type 0} (fl : Floats F64 F32) where
  abbrev pub parsed : Text → Option F64 → F64 × Bool
  parsed s (some f) = (f, true)
  parsed s none = (fl.parse_rest s, false)

  unfoldable pub to_float : Any F64 F32 → F64 × Bool
  to_float (float64 v) = (v, true)
  to_float (float32 v) = (fl.widen v, true)
  to_float (int v) = (fl.of_int v, true)
  to_float (int32 v) = (fl.of_int v, true)
  to_float (int64 v) = (fl.of_int v, true)
  to_float (uint32 v) = (fl.of_int (pos v), true)
  to_float (uint64 v) = (fl.of_int (pos v), true)
  to_float (json_number s) = parsed s (fl.parse s)
  to_float (boolean true) = (fl.of_int (pos 1), true)
  to_float (boolean false) = (fl.of_int (pos 0), true)
  to_float _ = (fl.of_int (pos 0), false)

  unfoldable pub to_sample : Text → Any F64 F32 → Text → Sample F64 F32
  unfolding to_float
  to_sample param raw name =
      let (value, numeric) = to_float raw in
      record { param = param; name = name; raw = raw; value = value; numeric = numeric }

  abbrev pub append_named :
      Text → Any F64 F32 → NameResult (Text × Text) → List (Sample F64 F32) → List (Sample F64 F32)
  append_named param raw (name_ok (name, _)) rest = to_sample param raw name ∷ rest
  append_named param raw (cannot_convert _) rest = rest

  -- The loop over the parameters; a name that cannot be converted is skipped.
  unfoldable pub compute_samples :
      Unicode → Text → Text → Dict (Any F64 F32) → List (Sample F64 F32)
  compute_samples u prefix sn [] = []
  compute_samples u prefix sn ((param, raw) ∷ params) =
      append_named param raw (generate_metric_name u param prefix sn)
        (compute_samples u prefix sn params)

  -- Computed once per prefix, then read from the update's own map.
  unfoldable pub samples_of :
      Unicode → Text → DeviceUpdate F64 F32 → List (Sample F64 F32) × DeviceUpdate F64 F32
  samples_of u prefix up = elim (lookup prefix up.samples) [
    | some s ↦ (s, up)
    | none ↦
        let s = compute_samples u prefix up.device.sn up.params in
        (s, record up { samples = insert prefix s up.samples })
  ]

-- How a handler's call may end: by a return, with or without an error, or by a panic.
pub data Outcome : Type 0 where
  returned : Option Text → Outcome
  panicked : Text → Outcome

-- A handler acts on the update, whose cache it may fill, and on the state of the handlers, `W`.
abbrev pub MetricHandler : Type 0 → Type 0 → Type 0
MetricHandler W U = U → W → Outcome × U × W

abbrev pub recovered : Outcome → Option Text
recovered (returned err) = err
recovered (panicked r) = some (codes "panic: " ++ r)

abbrev pub log_error : Option Text → List Text → List Text
log_error none log = log
log_error (some err) log = err ∷ log

module _ {W U : Type 0} where
  -- The deferred function turns a panic into an error.
  unfoldable pub safe_handle : MetricHandler W U → U → W → Option Text × U × W
  safe_handle h up w = let (outcome, up', w') = h up w in (recovered outcome, up', w')

  -- The errors that `dispatch` logs stand beside the new state, in order.
  unfoldable pub dispatch : List (MetricHandler W U) → U → W → List Text × U × W
  dispatch [] up w = ([], up, w)
  dispatch (h ∷ hs) up w =
      let (err, up', w') = safe_handle h up w in
      let (log, up'', w'') = dispatch hs up' w' in (log_error err log, up'', w'')
