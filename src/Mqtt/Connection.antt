-- ===== src/Mqtt/Connection.antt =====
-- mqtt_exporter.go: the callbacks of the MQTT client, `OnConnect` and `OnConnectionLost`. `OnReconnect` only logs.
use go_ecoflow_exporter.Base.{ℕ, Text, true, false, Option, none, some, [], ◌∷◌}
use go_ecoflow_exporter.Base.Dict.{Dict}
use go_ecoflow_exporter.Telemetry.{Telemetry, set_mqtt_connected}
use go_ecoflow_exporter.Mqtt.Status.{init_device_statuses}
use go_ecoflow_exporter.Mqtt.Handler.{MqttMetricsExporter}
use go_ecoflow_exporter.Mqtt.Requests.{Sender, Clock, request_latest_quotas}

-- The loop over the devices: a subscription, and after a successful one a request for the device's full state, whose
-- error is only logged. `subscribe` is SubscribeForParameters of the client.
unfoldable pub subscribe_all :
    (Text → Option Text) → Sender → Clock → Dict Text → Option Telemetry → Option Telemetry
subscribe_all subscribe sender now [] t = t
subscribe_all subscribe sender now ((sn, name) ∷ devices) t =
    subscribe_all subscribe sender now devices
      (elim (subscribe sn) [ some err ↦ t | none ↦ (request_latest_quotas sender now sn t).1 ])

module _ {F64 F32 W : Type 0} where
  unfoldable pub on_connect :
      (Text → Option Text)
      → Sender
      → Clock
      → ℕ
      → MqttMetricsExporter F64 F32 W
      → MqttMetricsExporter F64 F32 W
  on_connect subscribe sender clock now m = record m {
    status = init_device_statuses now m.devices m.status;
    telemetry =
        subscribe_all subscribe sender clock m.devices (set_mqtt_connected true m.telemetry);
  }

  unfoldable pub on_connection_lost : MqttMetricsExporter F64 F32 W → MqttMetricsExporter F64 F32 W
  on_connection_lost m = record m { telemetry = set_mqtt_connected false m.telemetry }
