-- ===== src/Mqtt/Events.antt =====
-- mqtt_exporter.go: the exporter event by event: a message, a connection or its loss, and a round of the monitor, in any
-- order, each as one step.
pub mod Steps
pub mod Silent
pub mod Invariant
pub mod Round
pub mod Exposed
mod Tests
use go_ecoflow_exporter.Base.{ℕ, Text, Bool, Option, List, [], ◌∷◌}
use go_ecoflow_exporter.Base.Dict.{Dict}
use go_ecoflow_exporter.Update.{Floats, Any, DeviceUpdate, MetricHandler}
use go_ecoflow_exporter.Protobuf.Message.{Bytes}
use go_ecoflow_exporter.Protobuf.Decoder.{Codec, new_protobuf_decoder}
use go_ecoflow_exporter.Telemetry.{Telemetry}
use go_ecoflow_exporter.Mqtt.Status.{initial}
use go_ecoflow_exporter.Mqtt.Handler.{MqttMetricsExporter, Message, message_handler}
use go_ecoflow_exporter.Mqtt.Monitor.{monitor_round}
use go_ecoflow_exporter.Mqtt.Requests.{Sender, Clock}
use go_ecoflow_exporter.Mqtt.Connection.{on_connect, on_connection_lost}

-- What happens, with the time. A round says whether the client is connected then, a connection what the subscriptions
-- and the requests lead to.
pub data Event : Type 0 where
  received : ℕ → Message → Event
  connected : (Text → Option Text) → Sender → Clock → ℕ → Event
  connection_lost : Event
  checked : Bool → ℕ → Event

-- What NewMqttMetricsExporter returns for a configuration that passes its checks.
unfoldable pub new_mqtt_metrics_exporter :
    {F64 F32 W : Type 0}
    → Dict Text
    → List (MetricHandler W (DeviceUpdate F64 F32))
    → Bool
    → Option Telemetry
    → W
    → MqttMetricsExporter F64 F32 W
new_mqtt_metrics_exporter devices handlers protobuf_debug telemetry world = record {
  devices = devices;
  handlers = handlers;
  status = initial;
  device_state = [];
  protobuf_decoder = new_protobuf_decoder protobuf_debug;
  telemetry = telemetry;
  world = world;
}

module _ {F64 F32 W : Type 0} (fl : Floats F64 F32) (c : Codec F64 F32)
    (unmarshal_params : Bytes → Option (Dict (Any F64 F32))) (threshold : ℕ) where
  unfoldable pub step : Event → MqttMetricsExporter F64 F32 W → MqttMetricsExporter F64 F32 W
  step (received now msg) m = (message_handler fl c unmarshal_params now msg m).0
  step (connected subscribe sender clock now) m = on_connect subscribe sender clock now m
  step connection_lost m = on_connection_lost m
  step (checked is_connected now) m = (monitor_round is_connected now threshold m).0

  unfoldable pub run_events :
      List Event → MqttMetricsExporter F64 F32 W → MqttMetricsExporter F64 F32 W
  run_events [] m = m
  run_events (e ∷ es) m = run_events es (step e m)
