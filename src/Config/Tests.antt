-- ===== src/Config/Tests.antt =====
-- The theorems on the configuration at concrete values.
use go_ecoflow_exporter.Base.{codes, text_eq, true, some, [], ◌∷◌, ◌≡◌, refl}
use go_ecoflow_exporter.Base.Int.{wrap, signed, pos, negsuc}
use go_ecoflow_exporter.Base.Dict.{lookup, insert}
use go_ecoflow_exporter.Mqtt.Topic.{split}
use go_ecoflow_exporter.Config.{in_seconds, add_pretty, add_devices, parse_device_mapping}
use go_ecoflow_exporter.Config.Load.{is_mqtt}
use go_ecoflow_exporter.Config.Sample.{test_library, test_config}
use go_ecoflow_exporter.Config.Devices.{IsProper, parse_device_mapping-IsProper}

-- A number of seconds that does not fit becomes a negative duration.
too_many_seconds : in_seconds (pos 9_223_372_037) ≡ negsuc 9_223_372_036_709_551_615
unfolding in_seconds wrap signed
too_many_seconds = refl

mqtt_named : is_mqtt test_config.exporter_type ≡ true
unfolding text_eq
mqtt_named = refl

test_devices_parsed :
    parse_device_mapping test_library [] (codes "R331,,R601")
    ≡ some ((codes "R331", codes "R331") ∷ (codes "R601", codes "R601") ∷ [])
unfolding parse_device_mapping add_pretty add_devices split insert lookup text_eq
test_devices_parsed = refl

parse_device_mapping-IsProper_example :
    IsProper ((codes "R331", codes "R331") ∷ (codes "R601", codes "R601") ∷ [])
parse_device_mapping-IsProper_example =
    parse_device_mapping-IsProper test_library [] (codes "R331,,R601") _ test_devices_parsed
