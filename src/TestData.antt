-- ===== src/TestData.antt =====
-- Values at which the theorems are tried: integers in place of floats, and small devices and updates.
use go_ecoflow_exporter.Base.{Text, codes, Option, none, some, [], ◌∷◌, true}
use go_ecoflow_exporter.Base.Int.{ℤ, pos}
use go_ecoflow_exporter.Base.Dict.{Dict}
use go_ecoflow_exporter.Name.{basic_latin}
use go_ecoflow_exporter.Update.{Floats, EcoflowDevice, Any, float64, string, Sample, DeviceUpdate}
use go_ecoflow_exporter.Protobuf.Message.{Bytes}
use go_ecoflow_exporter.Protobuf.Decoder.{Codec}
use go_ecoflow_exporter.Mqtt.Handler.{Message}
use go_ecoflow_exporter.Prometheus.{PrometheusExporter, store}

abbrev pub test_floats : Floats ℤ ℤ
test_floats = record { widen = λ f. f; of_int = λ i. i; parse = λ s. none; parse_rest = λ s. pos 0 }

abbrev pub delta : EcoflowDevice
delta = record { sn = codes "R331"; name = codes "Delta 2"; online = pos 1 }

abbrev pub delta_off : EcoflowDevice
delta_off = record { sn = codes "R331"; name = codes "Delta 2"; online = pos 0 }

abbrev pub river : EcoflowDevice
river = record { sn = codes "R601"; name = codes "River"; online = pos 1 }

abbrev pub test_params : Dict (Any ℤ ℤ)
test_params =
    (codes "pd.soc", float64 (pos 77))
    ∷ (codes "", float64 (pos 1))
    ∷ (codes "name", string (codes "x"))
    ∷ []

abbrev pub soc_sample : Sample ℤ ℤ
soc_sample = record {
  param = codes "pd.soc";
  name = codes "ecoflow_pd_soc";
  raw = float64 (pos 77);
  value = pos 77;
  numeric = true;
}

abbrev pub test_update : DeviceUpdate ℤ ℤ
test_update = record { device = delta; time = 1; params = test_params; samples = [] }

abbrev pub empty_exporter : PrometheusExporter ℤ
empty_exporter = record { prefix = codes "ecoflow"; metrics = []; descs = [] }

-- After an update of each of the two devices.
abbrev pub filled_exporter : PrometheusExporter ℤ
filled_exporter =
    store test_floats basic_latin river (soc_sample ∷ [])
      (store test_floats basic_latin delta (soc_sample ∷ []) empty_exporter)

abbrev pub soc_params : Dict (Any ℤ ℤ)
soc_params = (codes "pd.soc", float64 (pos 77)) ∷ []

-- JSON payloads alone are read, all to the same parameters.
abbrev pub json_codec : Codec ℤ ℤ
json_codec = record {
  trim_space = λ b. b;
  unmarshal_object = λ b. some soc_params;
  unmarshal_headers = λ b. none;
  unmarshal_message = λ t b. none;
}

abbrev pub json_params : Bytes → Option (Dict (Any ℤ ℤ))
json_params payload = some soc_params

abbrev pub delta_sn : Text
delta_sn = codes "R331"

abbrev pub json_message : Message
json_message = record { topic = codes "/app/device/property/R331"; payload = codes "{}" }
