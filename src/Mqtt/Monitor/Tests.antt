-- ===== src/Mqtt/Monitor/Tests.antt =====
-- The theorem on the monitor at concrete values.
use go_ecoflow_exporter.Base.{
  ◌<◌, ◌≤◌, ◌*◌, Text, codes, text_eq, true, false, none, List, [], ◌∷◌, ◌≡◌, ◌≢◌, ◌↔◌, refl,
  length,
}
use go_ecoflow_exporter.Base.Int.{ℤ}
use go_ecoflow_exporter.Base.Dict.{Dict, lookup, has, IsUnique}
use go_ecoflow_exporter.Protobuf.Decoder.{new_protobuf_decoder}
use go_ecoflow_exporter.Mqtt.Status.{initial, mark_received, second}
use go_ecoflow_exporter.Mqtt.Status.Invariant.{Reach-IsSound, next, start, received}
use go_ecoflow_exporter.Mqtt.Status.Offline.{IsOffline}
use go_ecoflow_exporter.Mqtt.Handler.{MqttMetricsExporter}
use go_ecoflow_exporter.Mqtt.Monitor.{leave, monitor_round, monitor_round_acts}

abbrev silent_devices : Dict Text
silent_devices = (codes "R331", codes "Delta 2") ∷ []

-- One device, last heard of a hundred seconds after the start.
abbrev silent_exporter : MqttMetricsExporter ℤ ℤ (List Text)
silent_exporter = record {
  devices = silent_devices;
  handlers = [];
  status = (mark_received (100 * second) (codes "R331") initial).0;
  device_state = [];
  protobuf_decoder = new_protobuf_decoder false;
  telemetry = none;
  world = [];
}

silent_devices-IsUnique : IsUnique silent_devices
unfolding lookup
silent_devices-IsUnique = (refl, tt)

silent_device : has (codes "R331") silent_devices ≡ true
unfolding lookup text_eq
silent_device = refl

monitor_round_acts_example :
    ((monitor_round true (500 * second) (300 * second) silent_exporter).1 ≢ leave) ↔ (
      (0 < length silent_devices)
      × ((sn : Text)
          → has sn silent_devices ≡ true
          → IsOffline (500 * second) (300 * second) silent_exporter.status sn)
      × (silent_exporter.status.next_reconnect ≤ 500 * second))
monitor_round_acts_example =
    monitor_round_acts (500 * second) (300 * second) silent_exporter silent_devices-IsUnique (
      Reach-IsSound silent_devices (300 * second)
        (next start (received (100 * second) (codes "R331") initial silent_device)))
