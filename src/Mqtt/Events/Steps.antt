-- ===== src/Mqtt/Events/Steps.antt =====
-- mqtt_exporter.go: what each event leaves of the exporter's configuration, status and handlers.
use go_ecoflow_exporter.Base.{
  ℕ, ltb, length, ◌==◌, Text, Bool, true, false, ◌&&◌, Option, none, some, List, [], ◌∷◌, ◌≡◌, ◌≢◌,
  ◌⊎◌, refl, ◌∙◌, inl, inr, arith, Bool-cases,
}
use go_ecoflow_exporter.Base.Dict.{Dict, has}
use go_ecoflow_exporter.Update.{Floats, Any, new_device_update, dispatch}
use go_ecoflow_exporter.Protobuf.Message.{Bytes}
use go_ecoflow_exporter.Protobuf.Decoder.{Codec, format_string, detect_format, copy_into}
use go_ecoflow_exporter.Mqtt.Status.{Status, mark_received, reconnect_due, relogin_due}
use go_ecoflow_exporter.Mqtt.Status.Invariant.{IsSound, reconnects-IsSound, relogins-IsSound}
use go_ecoflow_exporter.Mqtt.Topic.{get_sn_from_topic}
use go_ecoflow_exporter.Mqtt.Handler.{
  MqttMetricsExporter, Message, state_of, message_handler, for_sn, with_params, publish,
  dispatch_state,
}
use go_ecoflow_exporter.Mqtt.Handler.State.{params_in}
use go_ecoflow_exporter.Mqtt.Handler.Branches.{online_device, received, entered, publish_world}
use go_ecoflow_exporter.Mqtt.Monitor.{check_connection, with_reconnect, with_relogin}

module _ {F64 F32 W : Type 0} where
  -- The handlers are left alone, or called with the full state of an online device.
  abbrev pub Told : ℕ → Text → MqttMetricsExporter F64 F32 W → W → Type 0
  Told now sn m w =
      (w ≡ m.world)
      ⊎ ((full_state : Dict (Any F64 F32)) × (w
            ≡ (dispatch m.handlers (new_device_update now (online_device sn m) full_state)
                m.world).2))

  -- What a message of a configured device does.
  pub record Handled (now : ℕ) (sn : Text) (m m' : MqttMetricsExporter F64 F32 W) : Type 0 where
    pub same_devices : m'.devices ≡ m.devices
    pub same_handlers : m'.handlers ≡ m.handlers
    pub marked : m'.status ≡ (mark_received now sn m.status).0
    pub told : Told now sn m m'.world

  publish_kept :
      (now : ℕ) (sn : Text) (full_state : Dict (Any F64 F32)) (m : MqttMetricsExporter F64 F32 W)
      → let m' = dispatch_state now sn full_state m in
        (m'.devices ≡ m.devices) × (m'.handlers ≡ m.handlers) × (m'.status ≡ m.status)
  unfolding dispatch_state
  publish_kept now sn [] m = (refl, refl, refl)
  publish_kept now sn (entry ∷ full_state) m = (refl, refl, refl)

  pub with_params_kept :
      (now : ℕ) (sn format : Text) (params : Option (Dict (Any F64 F32)))
      (m : MqttMetricsExporter F64 F32 W)
      → let m' = with_params now sn format params m in
        (m'.devices ≡ m.devices)
        × (m'.handlers ≡ m.handlers)
        × (m'.status ≡ m.status)
        × Told now sn m m'.world
  unfolding with_params publish
  with_params_kept now sn format none m = (refl, refl, refl, inl refl)
  with_params_kept now sn format (some []) m = (refl, refl, refl, inl refl)
  with_params_kept now sn format (some ((k, v) ∷ ps)) m =
      let (d, h, s) =
        publish_kept now sn (copy_into (state_of sn m.device_state) ((k, v) ∷ ps)) _ in
      (d, h, s, inr (_, publish_world now sn k v ps m))

pub nonempty : (s : Text) → (s ≡ []) ⊎ (s ≢ [])
nonempty [] = inl refl
nonempty (x ∷ xs) = inr (λ e. absurd (cc))

module _ (devices : Dict Text) (threshold : ℕ) where
  -- The checks of the connection leave the record of the devices alone, and the status sound.
  abbrev pub Kept : Status → Status → Type 0
  Kept st st' =
      (st'.offline_sent ≡ st.offline_sent)
      × (st'.last_received ≡ st.last_received)
      × IsSound devices threshold st'

  reconnect_due-Kept :
      (now : ℕ) (st : Status)
      → IsSound devices threshold st
      → Kept st (reconnect_due now threshold st).1
  unfolding reconnect_due
  reconnect_due-Kept now st ok =
      (ground arith, ground arith, reconnects-IsSound devices threshold now st ok)

  relogin_due-Kept : (st : Status) → IsSound devices threshold st → Kept st (relogin_due st).1
  unfolding relogin_due
  relogin_due-Kept st ok = (ground arith, ground arith, relogins-IsSound devices threshold st ok)

  with_relogin-Kept : (st : Status) (b : Bool × Status) → Kept st b.1 → Kept st (with_relogin b).1
  with_relogin-Kept st (true, st') h = h
  with_relogin-Kept st (false, st') h = h

  with_reconnect-Kept :
      (st : Status) (b : Bool × Status) → Kept st b.1 → Kept st (with_reconnect b).1
  with_reconnect-Kept st (false, st') h = h
  with_reconnect-Kept st (true, st') (sent, heard, ok) =
      let (sent', heard', ok') = relogin_due-Kept st' ok in
      with_relogin-Kept st (relogin_due st') (sent' ∙ sent, heard' ∙ heard, ok')

  pub check_connection-Kept :
      (now : ℕ) (offline : List Text) (st : Status)
      → IsSound devices threshold st
      → Kept st (check_connection now threshold devices offline st).1
  unfolding check_connection
  check_connection-Kept now offline st ok =
      elim (Bool-cases (ltb 0 (length offline) && length offline == length devices)) [
        | inr fails ↦ rw (Kept, fails) (refl, refl, ok)
        | inl passes ↦
            rw (Kept, passes)
              (with_reconnect-Kept st (reconnect_due now threshold st)
                (reconnect_due-Kept now st ok))
      ]

module _ {F64 F32 W : Type 0} (fl : Floats F64 F32) (c : Codec F64 F32)
    (unmarshal_params : Bytes → Option (Dict (Any F64 F32))) where
  pub ignored_case :
      (now : ℕ) (sn : Text) (payload : Bytes) (m : MqttMetricsExporter F64 F32 W)
      → (has sn m.devices ≡ false) ⊎ (sn ≡ [])
      → (for_sn fl c unmarshal_params now sn payload m).0 ≡ m
  ignored_case now [] payload m h = refl
  ignored_case now (char ∷ chars) payload m (inl h) = rw (h) refl
  ignored_case now (char ∷ chars) payload m (inr h) = absurd (cc)

  message_handler-Handled :
      (now : ℕ) (msg : Message) (m : MqttMetricsExporter F64 F32 W)
      → get_sn_from_topic msg.topic ≢ []
      → has (get_sn_from_topic msg.topic) m.devices ≡ true
      → Handled now
          (get_sn_from_topic msg.topic)
          m
          (message_handler fl c unmarshal_params now msg m).0
  message_handler-Handled now msg m proper configured =
      let sn = get_sn_from_topic msg.topic in
      let params = params_in fl c unmarshal_params msg.payload in
      let (d, h, s, w) =
        with_params_kept now sn (format_string (detect_format fl c msg.payload)) params
          (received fl c unmarshal_params now msg m) in
      rw (entered fl c unmarshal_params now msg params m proper configured refl)
        (record { same_devices = d; same_handlers = h; marked = s; told = w })

  -- A message is ignored, or it is one of a configured device.
  pub message_handler_cases :
      (now : ℕ) (msg : Message) (m : MqttMetricsExporter F64 F32 W)
      → ((message_handler fl c unmarshal_params now msg m).0 ≡ m)
        ⊎ ((has (get_sn_from_topic msg.topic) m.devices ≡ true)
            × Handled now
                (get_sn_from_topic msg.topic)
                m
                (message_handler fl c unmarshal_params now msg m).0)
  message_handler_cases now msg m =
      let sn = get_sn_from_topic msg.topic in
      elim (nonempty sn) [
        | inl e ↦ inl (unfold message_handler in ignored_case now sn msg.payload m (inr e))
        | inr proper ↦ elim (Bool-cases (has sn m.devices)) [
          | inl known ↦ inr (known, message_handler-Handled now msg m proper known)
          | inr unknown ↦
              inl (unfold message_handler in ignored_case now sn msg.payload m (inl unknown))
        ]
      ]
