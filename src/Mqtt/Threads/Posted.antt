-- ===== src/Mqtt/Threads/Posted.antt =====
-- mqtt_exporter.go and prometheus.go together: what a message makes the exporter expose under every interleaving.
use go_ecoflow_exporter.Base.{ℕ, Text, Bool, false, Option, none, some, [], ◌∷◌, ◌≡◌, refl, ap, ◌∙◌}
use go_ecoflow_exporter.Base.Dict.{Dict}
use go_ecoflow_exporter.Name.{Unicode}
use go_ecoflow_exporter.Name.Key.{IsSerial}
use go_ecoflow_exporter.Telemetry.{Telemetry}
use go_ecoflow_exporter.Update.{Floats, Any, compute_samples, dispatch, new_device_update}
use go_ecoflow_exporter.Prometheus.{new_prometheus_exporter, online_name}
use go_ecoflow_exporter.Prometheus.Online.{value_at}
use go_ecoflow_exporter.Prometheus.Board.{posted}
use go_ecoflow_exporter.Prometheus.Refinement.{
  Report, value_at-told, new_prometheus_exporter-IsProper,
}
use go_ecoflow_exporter.Protobuf.Message.{Bytes}
use go_ecoflow_exporter.Protobuf.Decoder.{Codec, detect_format, new_protobuf_decoder}
use go_ecoflow_exporter.Mqtt.Topic.{get_sn_from_topic}
use go_ecoflow_exporter.Mqtt.Status.Invariant.{initial-IsSound}
use go_ecoflow_exporter.Mqtt.Handler.{MqttMetricsExporter, Message, state_of, with_params}
use go_ecoflow_exporter.Mqtt.Handler.State.{params_in, decode_as_params}
use go_ecoflow_exporter.Mqtt.Handler.Branches.{online_device, publish_world}
use go_ecoflow_exporter.Mqtt.Events.{new_mqtt_metrics_exporter}
use go_ecoflow_exporter.Mqtt.Events.Silent.{prom_only, dispatch-prom_only}
use go_ecoflow_exporter.Mqtt.Events.Invariant.{AreSerials}
use go_ecoflow_exporter.Mqtt.Threads.{idle, noted, finish_message, Reach}
use go_ecoflow_exporter.Mqtt.Threads.Steady.{Program, IsSteady, Reach-IsSteady}

module _ {F64 F32 W : Type 0} (fl : Floats F64 F32) (c : Codec F64 F32)
    (unmarshal_params : Bytes → Option (Dict (Any F64 F32))) (threshold : ℕ) where
  finish_message_world :
      (now : ℕ) (sn : Text) (payload : Bytes) (k : Text) (v : Any F64 F32)
      (params : Dict (Any F64 F32)) (m : MqttMetricsExporter F64 F32 W)
      → params_in fl c unmarshal_params payload ≡ some ((k, v) ∷ params)
      → let m' = finish_message fl c unmarshal_params threshold now sn payload m in
        m'.world
        ≡ (dispatch m.handlers
            (new_device_update now (online_device sn m) (state_of sn m'.device_state))
            m.world).2
  unfolding finish_message with_params
  finish_message_world now sn payload k v params m e =
      let format = detect_format fl c payload in
      let found =
        decode_as_params fl c unmarshal_params format sn [] payload m.protobuf_decoder
          (new_protobuf_decoder false)
        ∙ e in
      rw (found)
        (publish_world now sn k v params (noted fl c unmarshal_params threshold sn payload m))

module _ {F64 F32 : Type 0} (fl : Floats F64 F32) (u : Unicode) (c : Codec F64 F32)
    (unmarshal_params : Bytes → Option (Dict (Any F64 F32))) (prefix : Text) (devices : Dict Text)
    (threshold : ℕ) (debug : Bool) (telemetry : Option Telemetry) where
  -- The program's state after `run` has made the exporter, and before its goroutines' first steps.
  abbrev pub new_threads : Program fl u c unmarshal_params prefix devices threshold
  new_threads = record {
    exporter =
        new_mqtt_metrics_exporter devices (prom_only fl u prefix) debug telemetry
          (new_prometheus_exporter F64 prefix);
    round = idle;
    handling = none;
  }

  pub new_threads-IsSteady : IsSteady fl u c unmarshal_params prefix devices threshold new_threads
  unfolding new_mqtt_metrics_exporter
  new_threads-IsSteady = record {
    same_devices = refl;
    same_handlers = refl;
    sound = initial-IsSound devices threshold;
    proper = new_prometheus_exporter-IsProper fl u prefix;
    tracked = tt;
    known = λ msg e. absurd (cc);
  }

  -- Whatever the goroutines did before, in whichever order of their steps, the end of the handling of a message that holds
  -- parameters makes the exporter expose `online` as 1 and, for each other metric name, the last numeric sample of
  -- that name among the samples of the device's full cached state, or the value exposed before; and it changes no
  -- value of another device. Assumed: no serial number has an underscore.
  pub finish_message-posted :
      (t : Program fl u c unmarshal_params prefix devices threshold) (now : ℕ) (msg : Message)
      (k : Text) (v : Any F64 F32) (params : Dict (Any F64 F32)) (other n : Text)
      → AreSerials fl u prefix devices threshold
      → Reach fl c unmarshal_params threshold new_threads t
      → t.handling ≡ some msg
      → params_in fl c unmarshal_params msg.payload ≡ some ((k, v) ∷ params)
      → IsSerial other
      → let sn = get_sn_from_topic msg.topic in
        let m' = finish_message fl c unmarshal_params threshold now sn msg.payload t.exporter in
        value_at other n m'.world
        ≡ posted fl
            (online_name u prefix sn)
            (online_device sn t.exporter)
            (compute_samples fl u prefix sn (state_of sn m'.device_state))
            (λ s x. value_at s x t.exporter.world)
            other
            n
  finish_message-posted t now msg k v params other n serials reach busy e hs =
      let sn = get_sn_from_topic msg.topic in
      let h =
        Reach-IsSteady fl u c unmarshal_params prefix devices threshold serials new_threads-IsSteady
          reach in
      let m' = finish_message fl c unmarshal_params threshold now sn msg.payload t.exporter in
      let r : Report F64 F32 = record {
        now = now;
        device = online_device sn t.exporter;
        params = state_of sn m'.device_state;
      } in
      ap (value_at other n) (
        finish_message_world fl c unmarshal_params threshold now sn msg.payload k v params
          t.exporter e
        ∙ ap (λ hs. (dispatch hs (new_device_update now r.device r.params) t.exporter.world).2)
            h.same_handlers
        ∙ dispatch-prom_only fl u prefix r t.exporter.world)
      ∙ value_at-told fl u prefix r t.exporter.world other n (serials sn (h.known msg busy))
          h.proper hs
