-- ===== src/Start.antt =====
-- main.go: which exporter the program runs, and how the process ends.
pub mod Creation
pub mod Exit
pub mod Outage
pub mod Run
mod Tests
use go_ecoflow_exporter.Base.{
  ℕ, ◌*◌, Text, codes, Bool, Option, none, some, List, [], ◌∷◌, ◌++◌, length, if◌then◌else◌,
}
use go_ecoflow_exporter.Base.Int.{ℤ, pos, negsuc}
use go_ecoflow_exporter.Base.Dict.{Dict}
use go_ecoflow_exporter.Telemetry.{Telemetry}
use go_ecoflow_exporter.Update.{DeviceUpdate, MetricHandler}
use go_ecoflow_exporter.Rest.{RestMetricsExporter, new_rest_metrics_exporter}
use go_ecoflow_exporter.Mqtt.Status.{second}
use go_ecoflow_exporter.Mqtt.Handler.{MqttMetricsExporter}
use go_ecoflow_exporter.Mqtt.Events.{new_mqtt_metrics_exporter}
use go_ecoflow_exporter.Config.Load.{Config, ExporterError, is_mqtt, check_mqtt_config}

-- What createExporter returns: an exporter, or the error of NewMqttMetricsExporter.
pub data Created (F64 F32 W : Type 0) : Type 0 where
  mqtt_created : MqttMetricsExporter F64 F32 W → Created F64 F32 W
  rest_created : RestMetricsExporter F64 F32 W → Created F64 F32 W
  not_created : ExporterError → Created F64 F32 W

-- A duration that is not negative, as LoadConfig's are.
abbrev pub nanoseconds : ℤ → ℕ
nanoseconds (pos n) = n
nanoseconds (negsuc n) = 0

module _ {F64 F32 W : Type 0} where
  abbrev pub if_accepted : Option ExporterError → MqttMetricsExporter F64 F32 W → Created F64 F32 W
  if_accepted none m = mqtt_created m
  if_accepted (some err) m = not_created err

  unfoldable pub create_exporter :
      Config
      → Option Telemetry
      → List (MetricHandler W (DeviceUpdate F64 F32))
      → W
      → Created F64 F32 W
  create_exporter cfg telemetry handlers world =
      if is_mqtt cfg.exporter_type
      then if_accepted (check_mqtt_config cfg.mqtt cfg.devices (length handlers))
          (new_mqtt_metrics_exporter cfg.devices handlers cfg.protobuf_debug telemetry world)
      else rest_created (
          new_rest_metrics_exporter (nanoseconds cfg.rest.interval) cfg.devices handlers telemetry
            world)

abbrev pub unhealthy_exit_after : ℕ
unhealthy_exit_after = 1800 * second

abbrev pub watchdog_interval : ℕ
watchdog_interval = 60 * second

-- The end of `run`: whether a signal came, the error that the watchdog cancelled the context with, and what the exporter's
-- Run returned.
unfoldable pub run_result : Bool → Option Text → Option Text → Option Text
run_result signalled cause err =
    if signalled then err else elim cause [ some c ↦ some c | none ↦ err ]

-- The exit code of `main`.
unfoldable pub exit_code : Option Text → ℕ
exit_code none = 0
exit_code (some err) = 1
