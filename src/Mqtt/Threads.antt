-- ===== src/Mqtt/Threads.antt =====
-- mqtt_exporter.go: the goroutines of the monitor and of the MQTT client side by side. A round of the monitor goes from one
-- of its calls to the next, and a message from `markReceived` to the end of `MessageHandler`; the other goroutine may do
-- anything in between. Each step reads the clock for itself. A round may start at any time here, in the program while the
-- client is connected: these steps allow more than the program's. A message without a serial number or
-- of a device that is not configured changes nothing and is no step.
pub mod Tracked
pub mod Steady
pub mod Posted
pub mod Shown
pub mod Sequential
mod Tests
use go_ecoflow_exporter.Base.{ℕ, Text, true, Option, none, some, List, [], ◌∷◌, ◌≡◌, ◌≢◌, refl}
use go_ecoflow_exporter.Base.Dict.{Dict, has}
use go_ecoflow_exporter.Telemetry.{mqtt_message}
use go_ecoflow_exporter.Update.{Floats, Any}
use go_ecoflow_exporter.Protobuf.Message.{Bytes}
use go_ecoflow_exporter.Protobuf.Decoder.{Codec, detect_format, format_string}
use go_ecoflow_exporter.Mqtt.Topic.{get_sn_from_topic}
use go_ecoflow_exporter.Mqtt.Status.{mark_received, offline_devices, offline_updates_due}
use go_ecoflow_exporter.Mqtt.Handler.{
  MqttMetricsExporter, Message, decode_as, with_params, handle_message,
}
use go_ecoflow_exporter.Mqtt.Monitor.{send_offline, check_connection}
use go_ecoflow_exporter.Mqtt.Requests.{Sender, Clock}
use go_ecoflow_exporter.Mqtt.Connection.{on_connect, on_connection_lost}

-- Where a round is: before it, behind `offlineDevices`, or in the loop, with the offline devices and the updates to send.
pub data Round : Type 0 where
  idle : Round
  looked : List Text → Round
  sending : List Text → List Text → Round

-- `handling` is the message that was marked as received and is not passed on yet.
pub record Threads (F64 F32 W : Type 0) : Type 0 where
  pub exporter : MqttMetricsExporter F64 F32 W
  pub round : Round
  pub handling : Option Message

module _ {F64 F32 W : Type 0} (fl : Floats F64 F32) (c : Codec F64 F32)
    (unmarshal_params : Bytes → Option (Dict (Any F64 F32))) (threshold : ℕ) where
  -- The two parts of the handling of a message.
  unfoldable pub begin_message :
      ℕ → Text → MqttMetricsExporter F64 F32 W → MqttMetricsExporter F64 F32 W
  begin_message now sn m = record m { status = (mark_received now sn m.status).0 }

  -- With the decoder behind the switch on the format, and the counted message.
  abbrev pub noted : Text → Bytes → MqttMetricsExporter F64 F32 W → MqttMetricsExporter F64 F32 W
  noted sn payload m =
      let format = detect_format fl c payload in
      record m {
        protobuf_decoder = (decode_as fl c unmarshal_params format sn payload m.protobuf_decoder).1;
        telemetry = mqtt_message sn (format_string format) m.telemetry;
      }

  unfoldable pub finish_message :
      ℕ → Text → Bytes → MqttMetricsExporter F64 F32 W → MqttMetricsExporter F64 F32 W
  finish_message now sn payload m =
      let format = detect_format fl c payload in
      with_params now sn (format_string format)
        (decode_as fl c unmarshal_params format sn payload m.protobuf_decoder).0
        (noted sn payload m)

  -- One after the other they are the handler.
  pub parts_of_handle_message :
      (now : ℕ) (sn : Text) (payload : Bytes) (m : MqttMetricsExporter F64 F32 W)
      → (handle_message fl c unmarshal_params now sn payload m).0
        ≡ finish_message now sn payload (begin_message now sn m)
  unfolding handle_message begin_message finish_message
  parts_of_handle_message now sn payload m = refl

  pub data Step (t : Threads F64 F32 W) : Threads F64 F32 W → Type 0 where
    begins :
        (now : ℕ) (msg : Message)
        → t.handling ≡ none
        → get_sn_from_topic msg.topic ≢ []
        → has (get_sn_from_topic msg.topic) t.exporter.devices ≡ true
        → Step t (record t {
          exporter = begin_message now (get_sn_from_topic msg.topic) t.exporter;
          handling = some msg;
        })
    finishes :
        (now : ℕ) (msg : Message)
        → t.handling ≡ some msg
        → Step t (record t {
          exporter = finish_message now (get_sn_from_topic msg.topic) msg.payload t.exporter;
          handling = none;
        })
    connects :
        (subscribe : Text → Option Text) (sender : Sender) (clock : Clock) (now : ℕ)
        → Step t (record t { exporter = on_connect subscribe sender clock now t.exporter })
    disconnects : Step t (record t { exporter = on_connection_lost t.exporter })
    looks :
        (now : ℕ)
        → t.round ≡ idle
        → Step t (record t { round = looked (offline_devices now threshold t.exporter.status) })
    marks :
        (now : ℕ) (offline : List Text)
        → t.round ≡ looked offline
        → Step t (record t {
          round = sending offline (offline_updates_due now threshold offline t.exporter.status).0;
          exporter = record t.exporter {
            status = (offline_updates_due now threshold offline t.exporter.status).1;
          };
        })
    sends :
        (now : ℕ) (offline : List Text) (sn : Text) (due : List Text)
        → t.round ≡ sending offline (sn ∷ due)
        → Step t (record t {
          round = sending offline due;
          exporter = record t.exporter {
            world =
                send_offline now t.exporter.devices t.exporter.handlers (sn ∷ []) t.exporter.world;
          };
        })
    ends :
        (now : ℕ) (offline : List Text)
        → t.round ≡ sending offline []
        → Step t (record t {
          round = idle;
          exporter = record t.exporter {
            status =
                (check_connection now threshold t.exporter.devices offline t.exporter.status).1;
          };
        })

  pub data Reach (start : Threads F64 F32 W) : Threads F64 F32 W → Type 0 where
    here : Reach start start
    later : {t t' : Threads F64 F32 W} → Reach start t → Step t t' → Reach start t'
