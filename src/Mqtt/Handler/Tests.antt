-- ===== src/Mqtt/Handler/Tests.antt =====
-- The theorems on `MessageHandler` at concrete messages.
use go_ecoflow_exporter.Base.{
  codes, text_eq, true, false, none, some, [], ◌∷◌, ◌≡◌, ◌≢◌, refl, ap, ◌∙◌,
}
use go_ecoflow_exporter.Base.Int.{ℤ, pos}
use go_ecoflow_exporter.Base.Dict.{Dict, lookup, insert, has, IsUnique}
use go_ecoflow_exporter.Telemetry.{new_telemetry}
use go_ecoflow_exporter.Update.{
  Any, float64, returned, DeviceUpdate, MetricHandler, dispatch, safe_handle, get_device_name,
  new_device_update,
}
use go_ecoflow_exporter.TestData.{
  test_floats, soc_params, json_codec, json_params, delta_sn, json_message,
}
use go_ecoflow_exporter.Protobuf.Decoder.{
  copy_into, first_is, last_is, detect_format, new_protobuf_decoder,
}
use go_ecoflow_exporter.Protobuf.Decoder.Decode.{or_else}
use go_ecoflow_exporter.Mqtt.Status.{initial}
use go_ecoflow_exporter.Mqtt.Topic.{split, last_part, get_sn_from_topic}
use go_ecoflow_exporter.Mqtt.Handler.{
  MqttMetricsExporter, Message, state_of, message_handler, handle_message, with_params, decode_as,
  publish, dispatch_state,
}
use go_ecoflow_exporter.Mqtt.Handler.State.{params_in}
use go_ecoflow_exporter.Mqtt.Handler.Latest.{handle_messages, handle_messages_latest, last_said}

-- A handler that keeps the parameters it is given.
abbrev keep_params : MetricHandler (Dict (Any ℤ ℤ)) (DeviceUpdate ℤ ℤ)
keep_params up w = (returned none, up, up.params)

abbrev test_exporter : MqttMetricsExporter ℤ ℤ (Dict (Any ℤ ℤ))
test_exporter = record {
  devices = (codes "R331", codes "Delta 2") ∷ [];
  handlers = keep_params ∷ [];
  status = initial;
  device_state = (codes "R331", (codes "pd.watts", float64 (pos 5)) ∷ []) ∷ [];
  protobuf_decoder = new_protobuf_decoder false;
  telemetry = some (new_telemetry (codes "dev"));
  world = [];
}

abbrev broken_message : Message
broken_message = record { topic = codes "/app/device/property/R331"; payload = codes "x" }

-- The handlers see the parameters of both messages.
kept_params :
    (message_handler test_floats json_codec json_params 7 json_message test_exporter).0.world
    ≡ (codes "pd.watts", float64 (pos 5)) ∷ soc_params
unfolding message_handler get_sn_from_topic last_part split lookup text_eq handle_message
    with_params decode_as detect_format first_is last_is publish dispatch_state copy_into insert
    dispatch safe_handle new_device_update get_device_name
kept_params = refl

json_sn : get_sn_from_topic json_message.topic ≡ delta_sn
unfolding get_sn_from_topic last_part split
json_sn = refl

delta_sn-nonempty : delta_sn ≢ []
delta_sn-nonempty = λ e. absurd (cc)

topic-nonempty : get_sn_from_topic json_message.topic ≢ []
topic-nonempty = rw (json_sn) delta_sn-nonempty

delta-configured : has delta_sn test_exporter.devices ≡ true
unfolding lookup text_eq
delta-configured = refl

topic-configured : has (get_sn_from_topic json_message.topic) test_exporter.devices ≡ true
topic-configured = ap (λ sn. has sn test_exporter.devices) json_sn ∙ delta-configured

soc_params-IsUnique : (ps : Dict (Any ℤ ℤ)) → some soc_params ≡ some ps → IsUnique ps
unfolding lookup
soc_params-IsUnique ps e = let same : ps ≡ soc_params = cc in rw (same) (refl, tt)

json_decoded : params_in test_floats json_codec json_params json_message.payload ≡ some soc_params
unfolding decode_as detect_format first_is last_is
json_decoded = refl

broken_undecoded : params_in test_floats json_codec json_params broken_message.payload ≡ none
unfolding decode_as detect_format first_is last_is
broken_undecoded = refl

handle_messages_latest_example :
    lookup (codes "pd.soc") (
      state_of delta_sn
        (handle_messages test_floats json_codec json_params
          ((7, json_message) ∷ (8, broken_message) ∷ [])
          test_exporter).device_state)
    ≡ or_else
        (last_said test_floats json_codec json_params delta_sn
          (codes "pd.soc")
          ((7, json_message) ∷ (8, broken_message) ∷ []))
        (lookup (codes "pd.soc") (state_of delta_sn test_exporter.device_state))
handle_messages_latest_example =
    handle_messages_latest test_floats json_codec json_params
      (λ payload ps e. soc_params-IsUnique ps e) ((7, json_message) ∷ (8, broken_message) ∷ [])
      delta_sn (codes "pd.soc") test_exporter delta-configured delta_sn-nonempty
