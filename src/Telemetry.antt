-- ===== src/Telemetry.antt =====
-- telemetry.go: the metrics about the exporter itself. A vector of counters or gauges is a function of its
-- label values, and a nil *Telemetry is `none`. Metric names and help texts are left to the registry.
pub mod Order
use go_ecoflow_exporter.Base.{
  ℕ, ◌+◌, ◌/◌, Text, codes, text_eq, Bool, ◌&&◌, Option, none, some, if◌then◌else◌,
}
use go_ecoflow_exporter.Mqtt.Status.{second}
use go_ecoflow_exporter.Update.{EcoflowDevice}

pub record Telemetry : Type 0 where
  pub mqtt_connected : ℕ
  -- the Unix time of the last parameters of a device, by its name and serial number
  pub last_message : Text → Text → Option ℕ
  pub mqtt_messages : Text → Text → ℕ
  pub decode_errors : Text → Text → ℕ
  pub mqtt_pings : Text → Text → Text → ℕ
  pub mqtt_reconnects : ℕ
  pub mqtt_relogins : ℕ
  pub rest_requests : Text → Text → ℕ
  pub build_info : Text → Option ℕ

-- NewTelemetry
unfoldable pub new_telemetry : Text → Telemetry
new_telemetry version = record {
  mqtt_connected = 0;
  last_message = λ name sn. none;
  mqtt_messages = λ sn format. 0;
  decode_errors = λ sn format. 0;
  mqtt_pings = λ sn kind result. 0;
  mqtt_reconnects = 0;
  mqtt_relogins = 0;
  rest_requests = λ endpoint result. 0;
  build_info = λ v. if text_eq v version then some 1 else none;
}

abbrev pub success : Text
success = codes "success"

abbrev pub error : Text
error = codes "error"

unfoldable pub result : Option Text → Text
result none = success
result (some err) = error

-- WithLabelValues(a, b).Inc()
unfoldable pub inc : Text → Text → (Text → Text → ℕ) → Text → Text → ℕ
inc a b f x y = if text_eq a x && text_eq b y then f x y + 1 else f x y

-- A method of *Telemetry that a nil receiver leaves undone.
abbrev recorded : (Telemetry → Telemetry) → Option Telemetry → Option Telemetry
recorded f none = none
recorded f (some t) = some (f t)

unfoldable pub set_mqtt_connected : Bool → Option Telemetry → Option Telemetry
set_mqtt_connected connected =
    recorded (λ t. record t { mqtt_connected = if connected then 1 else 0 })

unfoldable pub device_seen : ℕ → EcoflowDevice → Option Telemetry → Option Telemetry
device_seen now device = recorded (λ t. record t {
  last_message = λ name sn.
      if text_eq device.name name && text_eq device.sn sn
      then some (now / second)
      else t.last_message name sn;
})

unfoldable pub mqtt_message : Text → Text → Option Telemetry → Option Telemetry
mqtt_message sn format = recorded (λ t. record t { mqtt_messages = inc sn format t.mqtt_messages })

unfoldable pub decode_error : Text → Text → Option Telemetry → Option Telemetry
decode_error sn format = recorded (λ t. record t { decode_errors = inc sn format t.decode_errors })

unfoldable pub mqtt_ping : Text → Text → Option Text → Option Telemetry → Option Telemetry
mqtt_ping sn kind err = recorded (λ t. record t {
  mqtt_pings = λ x y z.
      if text_eq sn x && (text_eq kind y && text_eq (result err) z)
      then t.mqtt_pings x y z + 1
      else t.mqtt_pings x y z;
})

unfoldable pub mqtt_forced_reconnect : Option Telemetry → Option Telemetry
mqtt_forced_reconnect = recorded (λ t. record t { mqtt_reconnects = t.mqtt_reconnects + 1 })

unfoldable pub mqtt_relogin : Option Telemetry → Option Telemetry
mqtt_relogin = recorded (λ t. record t { mqtt_relogins = t.mqtt_relogins + 1 })

unfoldable pub rest_request : Text → Option Text → Option Telemetry → Option Telemetry
rest_request endpoint err =
    recorded (λ t. record t { rest_requests = inc endpoint (result err) t.rest_requests })
