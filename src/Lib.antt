-- ===== src/Lib.antt =====
-- The EcoFlow exporter reads the parameters of EcoFlow power stations, over MQTT or the REST API,
-- and serves them as Prometheus metrics. This library models its Go code and shows what makes its
-- parts correct.
--
-- The parts and their interaction: a message of the MQTT broker reaches `MessageHandler`
-- (mqtt_exporter.go), which notes that its device is alive, decodes the payload as JSON or protobuf
-- (internal/protobuf), merges the parameters into the device's cached state and calls the metric
-- handlers with a `DeviceUpdate` (metric.go). The Prometheus handler (prometheus.go) turns the
-- update's samples into metrics, which a scrape collects. Beside it a monitor finds the devices
-- that fell silent, has them reported offline, and reconnects or logs in again when all are.
--
-- Files and code:
--   Base, Base/*: names, Boolean tests, lists, texts as lists of characters, decimals, Go's maps as
--     association lists.
--   Name, Name/*: `generateMetricName` and `ecoflowParamToPrometheusMetric` of metric.go.
--   Update, Update/*: `DeviceUpdate`, `Samples`, `toFloat`, `dispatch` and `safeHandle` of
--     metric.go.
--   Prometheus, Prometheus/*: `Handle`, `setLocked` and `Collect` of prometheus.go; Prometheus/Board
--     and Refinement state what they promise, a board of values by device and metric name.
--   Config, Config/*: config.go, and the checks of `NewMqttMetricsExporter` of mqtt_exporter.go.
--     Config/Log is `LogValue` and `setupLogger`.
--   Rest, Rest/*: `Run`, `scrape`, `fetchDevice` and `Health` of rest_exporter.go; Rest/Exposed puts them
--     together with the Prometheus exporter. In Rest a scrape makes its requests one after the other;
--     Rest/Parallel and Rest/Parallel/* are the goroutines of `scrape`, step by step.
--   Watchdog: `watchdog` of main.go.
--   Http, Http/*: the health check of http_server.go, and `runHealthcheck` of main.go.
--   Start, Start/*: `run`, `createExporter` and the exit code of main.go; Start/Outage puts the exit
--     together with the watchdog and the REST exporter's health.
--   Retry: `retryWithBackoff` of retry.go.
--   Telemetry: the methods of telemetry.go.
--   Protobuf/Message, Flatten, Packs: internal/protobuf/messages.go and the messages of
--     ecoflow.pb.go.
--   Protobuf/Order, Names, Visited: the orders in which a range visits the fields of a message.
--   Protobuf/Decoder, Decoder/*: internal/protobuf/decoder.go.
--   Mqtt/Status, Status/*: the fields of mqtt_exporter.go that `statusMu` guards, and their
--     methods.
--   Mqtt/Topic, Mqtt/Handler, Handler/*: `getSnFromTopic` and `MessageHandler` of mqtt_exporter.go.
--   Mqtt/Monitor: a round of `monitorDeviceStatus` of mqtt_exporter.go.
--   Mqtt/Requests: `requestLatestQuotas`, `sendRtcTimePing`, `recordPing` and `pingRoutine`.
--   Mqtt/Connection: `OnConnect` and `OnConnectionLost`.
--   Mqtt/Login: `getUserId`, `login` and `forceReconnect`.
--   Mqtt/Session, Session/*: `Run`, `runSession`, `requestRelogin` and `Health`, as the phases of the
--     goroutine of `Run` and the actions that are possible in each.
--   Mqtt/Events, Events/*: messages, connections and rounds of the monitor in any order, together
--     with the Prometheus exporter.
--   Mqtt/Threads, Threads/*: a round of the monitor and the handling of a message step by step, with
--     the steps of each between those of the other. Threads/Sequential relates it to Mqtt/Events.
--   TestData and the modules called Tests: concrete values, at which each theorem with hypotheses
--     is tried.
--
-- State is passed explicitly: an operation takes the record of its component and gives the new one.
-- A method that holds a lock from start to end is one step, and interleavings are sequences of
-- steps. Times are numbers of nanoseconds, read once per operation; int64 bounds them far away.
-- Where a configured number of seconds is multiplied the int64 may wrap, which is written out (`wrap` of Base/Int).
-- Text is a list of code points, bytes and numbers are natural numbers, and an int32 is the integer
-- that it stands for. A range over a map visits the association list in its order, which stands for
-- any.
--
-- Code outside of the repository is a parameter: Go's parsing of numbers and names and the file
-- system (`Library`), floating point numbers (`Floats`), Go's Unicode tables (`Unicode`, with what
-- Go documents of them as hypotheses), encoding/json and google.golang.org/protobuf (`Codec`), the
-- metric handlers and their state. Logging is left out, except where an error value or a counter
-- depends on it.
--
-- The goroutines: messages are handled one after the other, as the client calls them. In Mqtt/Events
-- a message, a connection or a round of the monitor is one step; in Mqtt/Threads a round and the
-- handling of a message are several steps each, and any step of the one may come between two of the
-- other. The goroutine of `Run` goes from wait to wait, and its select takes any case that is ready.
--
-- Fuel: `retry_with_backoff` counts turns of a loop that may have no bound; theorems give the
-- number that is enough. All else is by structural recursion.
--
-- Not modelled: what belongs to net/http, client_golang, log/slog and the MQTT client, as the routing
-- and the shutdown of the server, the registry and the exposition format, and log lines; signals;
-- and the accessors of the generated protobuf code.
pub mod Base
pub mod Name
pub mod Update
pub mod Prometheus
pub mod Retry
pub mod Telemetry
pub mod Protobuf
pub mod Mqtt
pub mod Rest
pub mod Config
pub mod Watchdog
pub mod Http
pub mod Start
pub mod TestData
