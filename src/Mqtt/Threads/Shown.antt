-- ===== src/Mqtt/Threads/Shown.antt =====
-- mqtt_exporter.go and prometheus.go together: in which ways a device can be exposed, under every interleaving.
use go_ecoflow_exporter.Base.{
  ℕ, Text, text_eq, text_eq_iff, text_eq_refl, Bool, true, Option, none, some, List, [], ◌∷◌, ◌≡◌,
  ◌⊎◌, inl, inr, refl, ◌∙◌, All, Bool-cases,
}
use go_ecoflow_exporter.Base.Int.{pos}
use go_ecoflow_exporter.Base.Dict.{Dict, lookup, has}
use go_ecoflow_exporter.Name.{Unicode}
use go_ecoflow_exporter.Name.Key.{IsSerial}
use go_ecoflow_exporter.Telemetry.{Telemetry}
use go_ecoflow_exporter.Update.{Floats, Any}
use go_ecoflow_exporter.Prometheus.{PrometheusExporter, new_prometheus_exporter, online_name}
use go_ecoflow_exporter.Prometheus.Online.{value_at}
use go_ecoflow_exporter.Prometheus.Refinement.{Report, IsProper, told, value_at-told}
use go_ecoflow_exporter.Protobuf.Message.{Bytes}
use go_ecoflow_exporter.Protobuf.Decoder.{Codec, detect_format, format_string}
use go_ecoflow_exporter.Mqtt.Topic.{get_sn_from_topic}
use go_ecoflow_exporter.Mqtt.Status.Updates.{contains}
use go_ecoflow_exporter.Mqtt.Handler.{MqttMetricsExporter, decode_as}
use go_ecoflow_exporter.Mqtt.Handler.Branches.{online_device}
use go_ecoflow_exporter.Mqtt.Connection.{on_connect, on_connection_lost}
use go_ecoflow_exporter.Mqtt.Monitor.{send_offline}
use go_ecoflow_exporter.Mqtt.Events.{new_mqtt_metrics_exporter}
use go_ecoflow_exporter.Mqtt.Events.Steps.{Told, with_params_kept}
use go_ecoflow_exporter.Mqtt.Events.Silent.{
  prom_only, silent, dispatch-prom_only, value_at-send_offline,
}
use go_ecoflow_exporter.Mqtt.Events.Invariant.{AreSerials}
use go_ecoflow_exporter.Mqtt.Threads.{
  sending, begin_message, noted, finish_message, Step, begins, finishes, connects, disconnects,
  looks, marks, sends, ends, Reach, here, later,
}
use go_ecoflow_exporter.Mqtt.Threads.Tracked.{AreTracked}
use go_ecoflow_exporter.Mqtt.Threads.Steady.{Program, IsSteady, Reach-IsSteady}
use go_ecoflow_exporter.Mqtt.Threads.Posted.{new_threads, new_threads-IsSteady}

module _ {F64 F32 : Type 0} (fl : Floats F64 F32) (u : Unicode) (prefix : Text) where
  -- A device has no series, or only `online` at 0, or `online` at 1 and any others.
  abbrev pub IsShown : Text → PrometheusExporter F64 → Type 0
  IsShown sn p =
      ((n : Text) → value_at sn n p ≡ none)
      ⊎ ((n : Text) → value_at sn n p ≡ silent fl u prefix sn n)
      ⊎ (value_at sn (online_name u prefix sn) p ≡ some (fl.of_int (pos 1)))

  IsShown-same :
      (sn : Text) (p p' : PrometheusExporter F64)
      → ((n : Text) → value_at sn n p' ≡ value_at sn n p)
      → IsShown sn p
      → IsShown sn p'
  IsShown-same sn p p' same (inl h) = inl (λ n. same n ∙ h n)
  IsShown-same sn p p' same (inr (inl h)) = inr (inl (λ n. same n ∙ h n))
  IsShown-same sn p p' same (inr (inr h)) = inr (inr (same (online_name u prefix sn) ∙ h))

  told-IsShown :
      (r : Report F64 F32) (p : PrometheusExporter F64) (sn : Text)
      → r.device.online ≡ pos 1
      → IsSerial r.device.sn
      → IsSerial sn
      → IsProper fl u prefix p
      → IsShown sn p
      → IsShown sn (told fl u prefix r p)
  told-IsShown r p sn online hr hs ok h = elim (Bool-cases (text_eq r.device.sn sn)) [
    | inl e ↦ inr (
        inr (
          value_at-told fl u prefix r p sn (online_name u prefix sn) hr ok hs
          ∙ rw
              (
                (text_eq_iff r.device.sn sn).0 e,
                text_eq_refl sn,
                text_eq_refl (online_name u prefix sn),
                online,
              )
              refl))
    | inr e ↦
        IsShown-same sn p (told fl u prefix r p)
          (λ n. value_at-told fl u prefix r p sn n hr ok hs ∙ rw (e) refl) h
  ]

  send_offline-IsShown :
      (now : ℕ) (devices : Dict Text) (due : List Text) (p : PrometheusExporter F64) (sn : Text)
      → All IsSerial due
      → IsSerial sn
      → IsProper fl u prefix p
      → IsShown sn p
      → IsShown sn (send_offline now devices (prom_only fl u prefix) due p)
  send_offline-IsShown now devices due p sn hd hs ok h = elim (Bool-cases (contains sn due)) [
    | inl e ↦
        inr (
          inl
            (λ n. value_at-send_offline fl u prefix now devices due p sn n hd hs ok ∙ rw (e) refl))
    | inr e ↦
        IsShown-same sn p (send_offline now devices (prom_only fl u prefix) due p)
          (λ n. value_at-send_offline fl u prefix now devices due p sn n hd hs ok ∙ rw (e) refl) h
  ]

module _ {F64 F32 : Type 0} (fl : Floats F64 F32) (u : Unicode) (c : Codec F64 F32)
    (unmarshal_params : Bytes → Option (Dict (Any F64 F32))) (prefix : Text) (devices : Dict Text)
    (threshold : ℕ) where
  abbrev AllShown : Program fl u c unmarshal_params prefix devices threshold → Type 0
  AllShown t = (sn : Text) → IsSerial sn → IsShown fl u prefix sn t.exporter.world

  module _ (serials : AreSerials fl u prefix devices threshold) where
    finished-IsShown :
        (now : ℕ) (own sn : Text) (m : MqttMetricsExporter F64 F32 (PrometheusExporter F64))
        (w : PrometheusExporter F64)
        → m.handlers ≡ prom_only fl u prefix
        → IsProper fl u prefix m.world
        → has own devices ≡ true
        → IsSerial sn
        → IsShown fl u prefix sn m.world
        → Told now own m w
        → IsShown fl u prefix sn w
    finished-IsShown now own sn m w handlers ok known hs h (inl same) = rw (same) h
    finished-IsShown now own sn m w handlers ok known hs h (inr (params, e)) =
        let r : Report F64 F32 = record {
          now = now;
          device = online_device own m;
          params = params;
        } in
        rw (e, handlers, dispatch-prom_only fl u prefix r m.world)
          (told-IsShown fl u prefix r m.world sn refl (serials own known) hs ok h)

    step-IsShown :
        (t t' : Program fl u c unmarshal_params prefix devices threshold)
        → IsSteady fl u c unmarshal_params prefix devices threshold t
        → AllShown t
        → Step fl c unmarshal_params threshold t t'
        → AllShown t'
    unfolding begin_message finish_message on_connect on_connection_lost
    step-IsShown t t' h shown (begins now msg free proper configured) = shown
    step-IsShown t t' h shown (finishes now msg busy) =
        let own = get_sn_from_topic msg.topic in
        let format = detect_format fl c msg.payload in
        let m = noted fl c unmarshal_params threshold own msg.payload t.exporter in
        let (d, hs, st, w) =
          with_params_kept now own (format_string format)
            (decode_as fl c unmarshal_params format own msg.payload t.exporter.protobuf_decoder).0
            m in
        λ sn serial.
          finished-IsShown now own sn m _ h.same_handlers h.proper (h.known msg busy) serial
            (shown sn serial) w
    step-IsShown t t' h shown (connects subscribe sender clock now) = shown
    step-IsShown t t' h shown disconnects = shown
    step-IsShown t t' h shown (looks now free) = shown
    step-IsShown t t' h shown (marks now offline stage) = shown
    step-IsShown t t' h shown (sends now offline sn due stage) =
        let (all, (first, rest)) : AreTracked t.exporter.status (sending offline (sn ∷ due)) =
          rw (AreTracked, stage) at h.tracked in
        λ other serial. rw (h.same_handlers) (
          send_offline-IsShown fl u prefix now t.exporter.devices (sn ∷ []) t.exporter.world other
            (serials sn (h.sound.configured sn first), tt) serial h.proper (shown other serial))
    step-IsShown t t' h shown (ends now offline stage) = shown

    reached-IsShown :
        {t t' : Program fl u c unmarshal_params prefix devices threshold}
        → IsSteady fl u c unmarshal_params prefix devices threshold t
        → AllShown t
        → Reach fl c unmarshal_params threshold t t'
        → AllShown t'
    reached-IsShown h shown here = shown
    reached-IsShown h shown (later {t = t1} {t' = t2} r s) =
        step-IsShown t1 t2
          (Reach-IsSteady fl u c unmarshal_params prefix devices threshold serials h r)
          (reached-IsShown h shown r) s

  module _ (debug : Bool) (telemetry : Option Telemetry) where
    start_empty :
        (sn n : Text)
        → let t = new_threads fl u c unmarshal_params prefix devices threshold debug telemetry in
          value_at sn n t.exporter.world ≡ none
    unfolding new_mqtt_metrics_exporter new_prometheus_exporter lookup value_at
    start_empty sn n = refl

    -- At every moment and under every interleaving of messages, connections and the monitor, what is exposed of a device
    -- is one of three things: no series at all; the one series `online`, at 0; or `online` at 1, with any others. A
    -- device that is exposed as offline has no stale series, also where the monitor reports it late. Assumed: no
    -- serial number has an underscore.
    pub Reach-IsShown :
        (t : Program fl u c unmarshal_params prefix devices threshold) (sn : Text)
        → AreSerials fl u prefix devices threshold
        → Reach fl c unmarshal_params threshold
            (new_threads fl u c unmarshal_params prefix devices threshold debug telemetry)
            t
        → IsSerial sn
        → IsShown fl u prefix sn t.exporter.world
    Reach-IsShown t sn serials reach hs =
        reached-IsShown serials
          (new_threads-IsSteady fl u c unmarshal_params prefix devices threshold debug telemetry)
          (λ other serial. inl (λ n. start_empty other n)) reach sn hs
