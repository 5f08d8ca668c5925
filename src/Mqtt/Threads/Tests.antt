-- ===== src/Mqtt/Threads/Tests.antt =====
-- The theorem on interleavings at a concrete one.
use go_ecoflow_exporter.Base.{
  ◌*◌, Text, codes, text_eq, text_eq_iff, true, false, none, some, [], ◌∷◌, ◌≡◌, ◌≢◌, refl, arith,
  ap, ◌∙◌,
}
use go_ecoflow_exporter.Base.Int.{pos}
use go_ecoflow_exporter.Base.Dict.{Dict, lookup, has}
use go_ecoflow_exporter.Name.{basic_latin}
use go_ecoflow_exporter.Update.{float64, compute_samples}
use go_ecoflow_exporter.Prometheus.{online_name}
use go_ecoflow_exporter.Prometheus.Online.{value_at}
use go_ecoflow_exporter.Prometheus.Board.{posted}
use go_ecoflow_exporter.Protobuf.Decoder.{detect_format, first_is, last_is}
use go_ecoflow_exporter.Mqtt.Topic.{split, last_part, get_sn_from_topic}
use go_ecoflow_exporter.Mqtt.Status.{second, offline_devices}
use go_ecoflow_exporter.Mqtt.Handler.{state_of, decode_as}
use go_ecoflow_exporter.Mqtt.Handler.State.{params_in}
use go_ecoflow_exporter.Mqtt.Handler.Branches.{online_device}
use go_ecoflow_exporter.Mqtt.Events.{new_mqtt_metrics_exporter}
use go_ecoflow_exporter.Mqtt.Events.Invariant.{AreSerials}
use go_ecoflow_exporter.Mqtt.Threads.{
  looked, begin_message, finish_message, Reach, here, later, begins, looks,
}
use go_ecoflow_exporter.Mqtt.Threads.Steady.{Program}
use go_ecoflow_exporter.Mqtt.Threads.Posted.{new_threads, finish_message-posted}
use go_ecoflow_exporter.Mqtt.Threads.Shown.{IsShown, Reach-IsShown}
use go_ecoflow_exporter.TestData.{
  test_floats, soc_params, json_codec, json_params, json_message, delta_sn,
}

abbrev one_device : Dict Text
one_device = (delta_sn, codes "Delta 2") ∷ []

one_device-AreSerials :
    AreSerials test_floats basic_latin (codes "ecoflow") one_device (300 * second)
unfolding lookup
one_device-AreSerials sn e =
    let same : sn ≡ delta_sn = ground (arith, text_eq_iff delta_sn sn) in rw (same) (omega arith)

json_sn : get_sn_from_topic json_message.topic ≡ delta_sn
unfolding get_sn_from_topic last_part split
json_sn = refl

named : get_sn_from_topic json_message.topic ≢ []
named = rw (json_sn) (λ e. absurd (cc))

one_device-has : has delta_sn one_device ≡ true
unfolding lookup text_eq
one_device-has = refl

configured : has (get_sn_from_topic json_message.topic) one_device ≡ true
configured = ap (λ sn. has sn one_device) json_sn ∙ one_device-has

decoded : params_in test_floats json_codec json_params json_message.payload ≡ some soc_params
unfolding decode_as detect_format first_is last_is
decoded = refl

abbrev Shape : Type 0
Shape =
    Program test_floats basic_latin json_codec json_params (codes "ecoflow") one_device
      (300 * second)

abbrev start : Shape
start =
    new_threads test_floats basic_latin json_codec json_params (codes "ecoflow") one_device
      (300 * second) false none

-- A message has come, and the monitor has looked at the devices.
abbrev between : Shape
between = record start {
  exporter =
      begin_message test_floats json_codec json_params (300 * second) (100 * second)
        (get_sn_from_topic json_message.topic) start.exporter;
  handling = some json_message;
}

abbrev looked_between : Shape
looked_between = record between {
  round = looked (offline_devices (101 * second) (300 * second) between.exporter.status);
}

start-configured : has (get_sn_from_topic json_message.topic) start.exporter.devices ≡ true
unfolding new_mqtt_metrics_exporter
start-configured = configured

reached : Reach test_floats json_codec json_params (300 * second) start looked_between
reached =
    later (later here (begins (100 * second) json_message refl named start-configured))
      (looks (101 * second) refl)

finish_message-posted_example :
    let sn = get_sn_from_topic json_message.topic in
    let m' =
      finish_message test_floats json_codec json_params
        (300 * second)
        (102 * second)
        sn
        json_message.payload
        looked_between.exporter in
    value_at delta_sn (codes "ecoflow_pd_soc") m'.world
    ≡ posted test_floats
        (online_name basic_latin (codes "ecoflow") sn)
        (online_device sn looked_between.exporter)
        (compute_samples test_floats basic_latin (codes "ecoflow") sn (state_of sn m'.device_state))
        (λ s x. value_at s x looked_between.exporter.world)
        delta_sn
        (codes "ecoflow_pd_soc")
finish_message-posted_example =
    finish_message-posted test_floats basic_latin json_codec json_params (codes "ecoflow")
      one_device (300 * second) false none looked_between (102 * second) json_message
      (codes "pd.soc") (float64 (pos 77)) [] delta_sn (codes "ecoflow_pd_soc") one_device-AreSerials
      reached refl decoded (omega arith)

Reach-IsShown_example :
    IsShown test_floats basic_latin (codes "ecoflow") delta_sn looked_between.exporter.world
Reach-IsShown_example =
    Reach-IsShown test_floats basic_latin json_codec json_params (codes "ecoflow") one_device
      (300 * second) false none looked_between delta_sn one_device-AreSerials reached (omega arith)

-- A message, and a round that finds the device silent.
