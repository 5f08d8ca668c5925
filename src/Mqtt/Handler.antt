-- ===== src/Mqtt/Handler.antt =====
-- mqtt_exporter.go: `MessageHandler`, from a message to the call of the metric handlers. Two messages are handled one
-- after the other (the client calls the handler in order), so a call is one step. The goroutine that requests a
-- device's full state acts on the broker only; that it is started is part of the result.
pub mod State
pub mod Latest
pub mod Branches
mod Tests
use go_ecoflow_exporter.Base.{
  ℕ, ◌==◌, Text, codes, Bool, true, false, Option, none, some, List, [], ◌∷◌, length, if◌then◌else◌,
}
use go_ecoflow_exporter.Base.Int.{ℤ, pos}
use go_ecoflow_exporter.Base.Dict.{Dict, lookup, insert, has}
use go_ecoflow_exporter.Telemetry.{Telemetry, mqtt_message, decode_error, device_seen}
use go_ecoflow_exporter.Update.{
  Floats, EcoflowDevice, Any, DeviceUpdate, get_device_name, new_device_update, MetricHandler,
  dispatch,
}
use go_ecoflow_exporter.Protobuf.Message.{Bytes}
use go_ecoflow_exporter.Protobuf.Decoder.{
  MessageFormat, format_unknown, format_json, format_protobuf, format_string, Codec, detect_format,
  ProtobufDecoder, log_first_protobuf_message, decode_protobuf_message, DecodeResult, decode_ok,
  decode_err, copy_into,
}
use go_ecoflow_exporter.Mqtt.Status.{Status, mark_received}
use go_ecoflow_exporter.Mqtt.Topic.{get_sn_from_topic}

-- The fields that the handling of messages reads or writes; `world` is the state of the metric handlers.
pub record MqttMetricsExporter (F64 F32 W : Type 0) : Type 0 where
  pub devices : Dict Text
  pub handlers : List (MetricHandler W (DeviceUpdate F64 F32))
  pub status : Status
  pub device_state : Dict (Dict (Any F64 F32))
  pub protobuf_decoder : ProtobufDecoder
  pub telemetry : Option Telemetry
  pub world : W

-- A message of the MQTT client.
pub record Message : Type 0 where
  pub topic : Text
  pub payload : Bytes

module _ {F64 F32 : Type 0} where
  -- m.deviceState[sn], where a missing state is made first
  abbrev pub state_of : Text → Dict (Dict (Any F64 F32)) → Dict (Any F64 F32)
  state_of sn states = elim (lookup sn states) [ none ↦ [] | some state ↦ state ]

-- `unmarshal_params` is the "params" object that encoding/json reads into an ecoflow.MqttDeviceParams.
module _ {F64 F32 : Type 0} (fl : Floats F64 F32) (c : Codec F64 F32)
    (unmarshal_params : Bytes → Option (Dict (Any F64 F32))) where
  abbrev pub of_result :
      DecodeResult F64 F32 × ProtobufDecoder → Option (Dict (Any F64 F32)) × ProtobufDecoder
  of_result (decode_ok params, d) = (some params, d)
  of_result (decode_err err, d) = (none, d)

  -- The switch on the format: the parameters, `none` for each of its early returns.
  unfoldable pub decode_as :
      MessageFormat → Text → Bytes → ProtobufDecoder → Option (Dict (Any F64 F32)) × ProtobufDecoder
  decode_as format_json sn payload d = (unmarshal_params payload, d)
  decode_as format_protobuf sn payload d =
      of_result (decode_protobuf_message fl c payload (log_first_protobuf_message sn d).0)
  decode_as format_unknown sn payload d = (none, d)

module _ {F64 F32 W : Type 0} where
  -- The call of the handlers with the full state, but for an empty one.
  unfoldable pub dispatch_state :
      ℕ → Text → Dict (Any F64 F32) → MqttMetricsExporter F64 F32 W → MqttMetricsExporter F64 F32 W
  dispatch_state now sn [] m = m
  dispatch_state now sn (entry ∷ full_state) m =
      let device : EcoflowDevice = record {
        sn = sn;
        name = get_device_name m.devices sn;
        online = pos 1;
      } in
      record m {
        telemetry = device_seen now device m.telemetry;
        world = (dispatch m.handlers (new_device_update now device (entry ∷ full_state)) m.world).2;
      }

  -- The update of the cached state, and its dispatch.
  unfoldable pub publish :
      ℕ → Text → Dict (Any F64 F32) → MqttMetricsExporter F64 F32 W → MqttMetricsExporter F64 F32 W
  publish now sn params m =
      let full_state = copy_into (state_of sn m.device_state) params in
      dispatch_state now sn full_state
        (record m { device_state = insert sn full_state m.device_state })

  -- What follows on the switch.
  unfoldable pub with_params :
      ℕ
      → Text
      → Text
      → Option (Dict (Any F64 F32))
      → MqttMetricsExporter F64 F32 W
      → MqttMetricsExporter F64 F32 W
  with_params now sn format none m = record m { telemetry = decode_error sn format m.telemetry }
  with_params now sn format (some []) m = m
  with_params now sn format (some (entry ∷ params)) m = publish now sn (entry ∷ params) m

module _ {F64 F32 W : Type 0} (fl : Floats F64 F32) (c : Codec F64 F32)
    (unmarshal_params : Bytes → Option (Dict (Any F64 F32))) where
  -- A message of a configured device.
  unfoldable pub handle_message :
      ℕ → Text → Bytes → MqttMetricsExporter F64 F32 W → MqttMetricsExporter F64 F32 W × Bool
  handle_message now sn payload m =
      let (status, was_offline) = mark_received now sn m.status in
      let format = detect_format fl c payload in
      let (params, decoder) =
        decode_as fl c unmarshal_params format sn payload m.protobuf_decoder in
      (
        with_params now sn (format_string format) params (record m {
          status = status;
          protobuf_decoder = decoder;
          telemetry = mqtt_message sn (format_string format) m.telemetry;
        }),
        was_offline,
      )

  -- The two early returns.
  abbrev pub for_sn :
      ℕ → Text → Bytes → MqttMetricsExporter F64 F32 W → MqttMetricsExporter F64 F32 W × Bool
  for_sn now [] payload m = (m, false)
  for_sn now (char ∷ chars) payload m =
      if has (char ∷ chars) m.devices
      then handle_message now (char ∷ chars) payload m
      else (m, false)

  -- The new state, and whether the full state of the device is requested.
  unfoldable pub message_handler :
      ℕ → Message → MqttMetricsExporter F64 F32 W → MqttMetricsExporter F64 F32 W × Bool
  message_handler now msg m = for_sn now (get_sn_from_topic msg.topic) msg.payload m
