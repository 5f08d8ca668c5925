-- ===== src/Mqtt/Events/Invariant.antt =====
-- mqtt_exporter.go: what holds between two events of the exporter with the Prometheus handler.
use go_ecoflow_exporter.Base.{
  ℕ, Text, text_eq, text_eq_iff, true, false, List, [], ◌∷◌, ◌≡◌, refl, sym, ◌∙◌, inl, inr, arith,
  All, In, Bool-cases,
}
use go_ecoflow_exporter.Base.Dict.{Dict, has, erase, lookup-erase}
use go_ecoflow_exporter.Name.{Unicode}
use go_ecoflow_exporter.Name.Key.{IsSerial}
use go_ecoflow_exporter.Update.{Floats, Any, dispatch, new_device_update}
use go_ecoflow_exporter.Prometheus.{PrometheusExporter}
use go_ecoflow_exporter.Prometheus.Online.{value_at}
use go_ecoflow_exporter.Prometheus.Refinement.{Report, IsProper, told, told-IsProper, value_at-told}
use go_ecoflow_exporter.Mqtt.Status.{mark_received}
use go_ecoflow_exporter.Mqtt.Status.Invariant.{IsSound, received-IsSound}
use go_ecoflow_exporter.Mqtt.Status.Updates.{contains}
use go_ecoflow_exporter.Mqtt.Handler.{MqttMetricsExporter}
use go_ecoflow_exporter.Mqtt.Handler.Branches.{online_device}
use go_ecoflow_exporter.Mqtt.Events.Steps.{Handled, Told}
use go_ecoflow_exporter.Mqtt.Events.Silent.{prom_only, silent, dispatch-prom_only}

pub contains-In : (sn : Text) (xs : List Text) → In sn xs → contains sn xs ≡ true
unfolding contains
contains-In sn [] i = absurd i
contains-In sn (x ∷ xs) (inl e) = ground (arith, text_eq_iff x sn, sym e)
contains-In sn (x ∷ xs) (inr i) = ground (arith, contains-In sn xs i)

pub In-contains : (sn : Text) (xs : List Text) → contains sn xs ≡ true → In sn xs
unfolding contains
In-contains sn [] e = absurd (cc)
In-contains sn (x ∷ xs) e = elim (Bool-cases (text_eq x sn)) [
  | inl same ↦ inl (sym ((text_eq_iff x sn).0 same))
  | inr differs ↦ inr (In-contains sn xs (ground arith))
]

pub All-of_In : {P : Text → Type 0} (xs : List Text) → ((x : Text) → In x xs → P x) → All P xs
All-of_In [] h = tt
All-of_In (x ∷ xs) h = (h x (inl refl), All-of_In xs (λ y i. h y (inr i)))

module _ {F64 F32 : Type 0} (fl : Floats F64 F32) (u : Unicode) (prefix : Text)
    (devices : Dict Text) (threshold : ℕ) where
  -- A device whose offline update was sent exposes nothing but `online`, which is 0.
  pub record IsLive (m : MqttMetricsExporter F64 F32 (PrometheusExporter F64)) : Type 0 where
    pub same_devices : m.devices ≡ devices
    pub same_handlers : m.handlers ≡ prom_only fl u prefix
    pub sound : IsSound devices threshold m.status
    pub proper : IsProper fl u prefix m.world
    pub cleared :
        (sn n : Text)
        → has sn m.status.offline_sent ≡ true
        → value_at sn n m.world ≡ silent fl u prefix sn n

  -- The configured serial numbers have no underscore.
  abbrev pub AreSerials : Type 0
  AreSerials = (sn : Text) → has sn devices ≡ true → IsSerial sn

  module _ (serials : AreSerials) where
    pub tracked-IsSerial :
        (m : MqttMetricsExporter F64 F32 (PrometheusExporter F64)) (sn : Text)
        → IsLive m
        → has sn m.status.last_received ≡ true
        → IsSerial sn
    tracked-IsSerial m sn live e = serials sn (live.sound.configured sn e)

    pub sent-IsSerial :
        (m : MqttMetricsExporter F64 F32 (PrometheusExporter F64)) (sn : Text)
        → IsLive m
        → has sn m.status.offline_sent ≡ true
        → IsSerial sn
    sent-IsSerial m sn live e = tracked-IsSerial m sn live (live.sound.heard_of sn e)

    module _ (now : ℕ) (sn : Text) (m m' : MqttMetricsExporter F64 F32 (PrometheusExporter F64))
        (live : IsLive m) (known : has sn m.devices ≡ true) where
      configured : has sn devices ≡ true
      configured = rw (← live.same_devices) known

      abbrev heard : Dict (Any F64 F32) → Report F64 F32
      heard params = record { now = now; device = online_device sn m; params = params }

      told_world :
          (params : Dict (Any F64 F32))
          → (dispatch m.handlers (new_device_update now (online_device sn m) params) m.world).2
            ≡ told fl u prefix (heard params) m.world
      told_world params =
          rw (live.same_handlers) (dispatch-prom_only fl u prefix (heard params) m.world)

      world-IsProper : Told now sn m m'.world → IsProper fl u prefix m'.world
      world-IsProper (inl same) = rw (same) live.proper
      world-IsProper (inr (params, e)) =
          rw (e, told_world params)
            (told-IsProper fl u prefix (heard params) m.world (serials sn configured) live.proper)

      other_value :
          (j n : Text)
          → text_eq sn j ≡ false
          → IsSerial j
          → Told now sn m m'.world
          → value_at j n m'.world ≡ value_at j n m.world
      other_value j n differs hj (inl same) = rw (same) refl
      other_value j n differs hj (inr (params, e)) =
          rw (e, told_world params)
            (value_at-told fl u prefix (heard params) m.world j n (serials sn configured)
                live.proper hj
              ∙ rw (differs) refl)

      pub message_handler-IsLive : Handled now sn m m' → IsLive m'
      unfolding mark_received
      message_handler-IsLive h = record {
        same_devices = h.same_devices ∙ live.same_devices;
        same_handlers = h.same_handlers ∙ live.same_handlers;
        sound =
            rw (h.marked)
              (received-IsSound devices threshold now sn m.status configured live.sound);
        proper = world-IsProper h.told;
        cleared = λ j n e.
            let e' : has j (erase sn m.status.offline_sent) ≡ true = rw (h.marked) at e in
            let differs : text_eq sn j ≡ false =
              ground (arith, lookup-erase sn j m.status.offline_sent, e') in
            let before : has j m.status.offline_sent ≡ true =
              ground (arith, lookup-erase sn j m.status.offline_sent, e') in
            other_value j n differs (sent-IsSerial m j live before) h.told
            ∙ live.cleared j n before;
      }
