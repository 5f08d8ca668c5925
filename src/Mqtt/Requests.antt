-- ===== src/Mqtt/Requests.antt =====
-- mqtt_exporter.go: what the exporter sends to devices, `requestLatestQuotas` and `sendRtcTimePing`, the counts of
-- `recordPing` and one tick of `pingRoutine`. A tick's goroutines, which it waits for, act on different devices' counts;
-- they run one after the other here. The warning about a high failure rate goes to the log only and is left out.
pub mod Counts
pub mod Refreshes
mod Tests
use go_ecoflow_exporter.Base.{
  ℕ, ◌+◌, ◌/◌, ◌%◌, max, ◌==◌, Text, codes, Bool, true, false, Option, none, some, List, [], ◌∷◌,
  ◌++◌, if◌then◌else◌,
}
use go_ecoflow_exporter.Base.Decimal.{format_nat}
use go_ecoflow_exporter.Base.Dict.{Dict, lookup, insert}
use go_ecoflow_exporter.Telemetry.{Telemetry, mqtt_ping}
use go_ecoflow_exporter.Protobuf.Message.{Bytes}

-- The values in a message to a device.
pub data Field : Type 0 where
  text : Text → Field
  number : ℕ → Field
  numbers : Dict ℕ → Field

-- What time.Time says of a moment.
pub record Clock : Type 0 where
  pub unix_milli : ℕ
  pub minute : ℕ
  pub day : ℕ
  pub weekday : ℕ
  pub second : ℕ
  pub month : ℕ
  pub hour : ℕ
  pub year : ℕ

-- What the exporter sends with. `marshal` is json.Marshal, a payload and an error. `client` is the session's client, nil
-- before the first login, as what its Publish leads to for a topic and a payload: `none` if the token does not complete
-- within five seconds, else the token's error, if it has one.
pub record Sender : Type 0 where
  pub marshal : Dict Field → Bytes × Option Text
  pub client : Option (Text → Bytes → Option (Option Text))
  pub user_id : Text

unfoldable pub quotas_message : Clock → Dict Field
quotas_message now =
    (codes "id", text (format_nat now.unix_milli))
    ∷ (codes "version", text (codes "1.1"))
    ∷ (codes "from", text (codes "Android"))
    ∷ (codes "operateType", text (codes "latestQuotas"))
    ∷ (codes "params", numbers [])
    ∷ []

unfoldable pub rtc_time_message : Clock → Dict Field
rtc_time_message now =
    (codes "from", text (codes "Android"))
    ∷ (codes "id", text (format_nat now.unix_milli))
    ∷ (codes "moduleType", number 2)
    ∷ (codes "operateType", text (codes "setRtcTime"))
    ∷ (
      codes "params",
      numbers (
          (codes "min", now.minute)
          ∷ (codes "day", now.day)
          ∷ (codes "week", now.weekday)
          ∷ (codes "sec", now.second)
          ∷ (codes "month", now.month)
          ∷ (codes "hour", now.hour)
          ∷ (codes "year", now.year)
          ∷ []),
    )
    ∷ (codes "version", text (codes "1.0"))
    ∷ []

-- /app/<user>/<serial number>/thing/property/<get or set>
unfoldable pub request_topic : Text → Text → Text → Text
request_topic user sn verb =
    codes "/app/" ++ user ++ codes "/" ++ sn ++ codes "/thing/property/" ++ verb

abbrev pub not_logged_in : Text
not_logged_in = codes "not logged in to EcoFlow yet"

abbrev pub quotas_error : Option (Option Text) → Option Text
quotas_error none = some (codes "publish timeout for latestQuotas request")
quotas_error (some none) = none
quotas_error (some (some err)) = some (codes "failed to request latest quotas: " ++ err)

abbrev pub ping_error : Option (Option Text) → Option Text
ping_error none = some (codes "publish timeout")
ping_error (some err) = err

-- What follows on the marshalling: the publication, unless there is no client. The error is returned, and counted unless
-- there was nothing to publish with.
abbrev pub publish_quotas :
    Sender → Text → Bytes × Option Text → Option Telemetry → Option Text × Option Telemetry
publish_quotas sender sn (payload, some err) t =
    (some (codes "failed to marshal latestQuotas message: " ++ err), t)
publish_quotas sender sn (payload, none) t = elim sender.client [
  | none ↦ (some not_logged_in, t)
  | some publish ↦
      let err = quotas_error (publish (request_topic sender.user_id sn (codes "get")) payload) in
      (err, mqtt_ping sn (codes "state_refresh") err t)
]

unfoldable pub request_latest_quotas :
    Sender → Clock → Text → Option Telemetry → Option Text × Option Telemetry
request_latest_quotas sender now sn t =
    publish_quotas sender sn (sender.marshal (quotas_message now)) t

-- The fields that `pingMu` guards, the routine's counter, and the telemetry. A nil map reads as an empty one.
pub record Pings : Type 0 where
  pub tick_count : ℕ
  pub ping_ok : Dict ℕ
  pub ping_failed : Dict ℕ
  pub telemetry : Option Telemetry

-- m[k], 0 for a missing key, and m[k]++
abbrev pub count : Text → Dict ℕ → ℕ
count k m = elim (lookup k m) [ none ↦ 0 | some n ↦ n ]

abbrev pub increment : Text → Dict ℕ → Dict ℕ
increment k m = insert k (count k m + 1) m

unfoldable pub record_ping : Text → Option Text → Pings → Pings
record_ping sn none p = record p {
  ping_ok = increment sn p.ping_ok;
  telemetry = mqtt_ping sn (codes "keepalive") none p.telemetry;
}
record_ping sn (some err) p = record p {
  ping_failed = increment sn p.ping_failed;
  telemetry = mqtt_ping sn (codes "keepalive") (some err) p.telemetry;
}

-- The error of a ping, by the ways through `sendRtcTimePing`; each of them records it and returns it.
abbrev pub publish_ping : Sender → Text → Bytes × Option Text → Option Text
publish_ping sender sn (payload, some err) = some (codes "failed to marshal ping: " ++ err)
publish_ping sender sn (payload, none) = elim sender.client [
  | none ↦ some not_logged_in
  | some publish ↦ ping_error (publish (request_topic sender.user_id sn (codes "set")) payload)
]

unfoldable pub send_rtc_time_ping : Sender → Clock → Text → Pings → Option Text × Pings
send_rtc_time_ping sender now sn p =
    let err = publish_ping sender sn (sender.marshal (rtc_time_message now)) in
    (err, record_ping sn err p)

-- `max(int(m.stateRefreshInterval/m.pingInterval), 1)`
abbrev pub ticks_per_refresh : ℕ → ℕ → ℕ
ticks_per_refresh state_refresh_interval ping_interval =
    max (state_refresh_interval / ping_interval) 1

-- The goroutine of one device.
abbrev pub contact : Bool → Sender → Clock → Text → Pings → Pings
contact true sender now sn p = record p {
  telemetry = (request_latest_quotas sender now sn p.telemetry).1;
}
contact false sender now sn p = (send_rtc_time_ping sender now sn p).1

unfoldable pub contact_all : Bool → Sender → Clock → Dict Text → Pings → Pings
contact_all refresh sender now [] p = p
contact_all refresh sender now ((sn, name) ∷ devices) p =
    contact_all refresh sender now devices (contact refresh sender now sn p)

-- A tick of the routine: whether the client is connected then, the time, and what is sent with.
pub record Tick : Type 0 where
  pub connected : Bool
  pub now : Clock
  pub sender : Sender

unfoldable pub ping_tick : ℕ → Dict Text → Tick → Pings → Pings
ping_tick per_refresh devices tick p =
    let tick_count = p.tick_count + 1 in
    let contacted =
      contact_all (tick_count % per_refresh == 0) tick.sender tick.now devices
        (record p { tick_count = tick_count }) in
    if tick.connected then contacted else p

-- The routine over its ticks.
unfoldable pub ping_routine : ℕ → Dict Text → List Tick → Pings → Pings
ping_routine per_refresh devices [] p = p
ping_routine per_refresh devices (tick ∷ ticks) p =
    ping_routine per_refresh devices ticks (ping_tick per_refresh devices tick p)
