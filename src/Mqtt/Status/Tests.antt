-- ===== src/Mqtt/Status/Tests.antt =====
-- mqtt_exporter.go: the status at examples, with a threshold of 300 seconds.
use go_ecoflow_exporter.Base.{
  ℕ, arith, ◌*◌, ◌%◌, Text, codes, text_eq, List, [], ◌∷◌, ◌≡◌, refl, ◌==◌,
}
use go_ecoflow_exporter.Base.Dict.{Dict, lookup, insert, IsUnique}
use go_ecoflow_exporter.Mqtt.Status.{
  Status, initial, second, mark_received, init_device_statuses, init_last_received, offline_devices,
  late, reconnect_due, relogin_due,
}
use go_ecoflow_exporter.Mqtt.Status.Invariant.{
  Reach, IsSound, start, next, received, connected, Reach-IsSound,
}
use go_ecoflow_exporter.Mqtt.Status.Backoff.{
  due_run, schedule, due_run-schedule, after_calls, relogin_every_third,
}
use go_ecoflow_exporter.Mqtt.Status.Updates.{update_times, limited, update_times-limited}

abbrev threshold : ℕ
threshold = 300 * second

abbrev devices : Dict Text
devices = (codes "R331", codes "Delta 2") ∷ (codes "R601", codes "River") ∷ []

-- Connected at second 1, a message of the first device at second 100.
abbrev running : Status
running =
    (mark_received (100 * second) (codes "R331") (init_device_statuses second devices initial)).0

one_offline : offline_devices (302 * second) threshold running ≡ codes "R601" ∷ []
unfolding offline_devices late mark_received init_device_statuses init_last_received lookup insert
    text_eq
one_offline = refl

running_reached : Reach devices threshold running
running_reached =
    next (next start (connected second initial))
      (received (100 * second) (codes "R331") _ (unfold lookup text_eq in refl))

Reach-IsSound_example : IsSound devices threshold running
Reach-IsSound_example = Reach-IsSound devices threshold running_reached

due_run-schedule_example :
    due_run threshold
      (0 ∷ (299 * second) ∷ (300 * second) ∷ (899 * second) ∷ (900 * second) ∷ [])
      (mark_received 0 (codes "R331") initial).0
    ≡ 0
      ∷ schedule threshold 0 0
          ((299 * second) ∷ (300 * second) ∷ (899 * second) ∷ (900 * second) ∷ [])
due_run-schedule_example =
    due_run-schedule threshold 0 0 (codes "R331")
      ((299 * second) ∷ (300 * second) ∷ (899 * second) ∷ (900 * second) ∷ []) initial

-- After 300 seconds, and then after ten minutes each.
scheduled :
    due_run threshold
      (0 ∷ (299 * second) ∷ (300 * second) ∷ (899 * second) ∷ (900 * second) ∷ [])
      (mark_received 0 (codes "R331") initial).0
    ≡ 0 ∷ (300 * second) ∷ (900 * second) ∷ []
unfolding due_run reconnect_due mark_received
scheduled = refl

relogin_every_third_example :
    (relogin_due (after_calls 2 (mark_received 0 (codes "R331") initial).0)).0 ≡ (2 % 3 == 2)
relogin_every_third_example = relogin_every_third 2 0 (codes "R331") initial

devices-IsUnique : IsUnique devices
unfolding lookup text_eq
devices-IsUnique = (refl, (refl, tt))

abbrev rounds : List (ℕ × List Text)
rounds =
    ((400 * second), codes "R331" ∷ codes "R601" ∷ [])
    ∷ ((475 * second), codes "R331" ∷ [])
    ∷ ((700 * second), codes "R331" ∷ [])
    ∷ []

update_times-limited_example :
    update_times threshold (codes "R331") rounds initial
    ≡ limited threshold (codes "R331") (lookup (codes "R331") initial.offline_sent) rounds
update_times-limited_example =
    update_times-limited threshold (codes "R331") rounds initial (omega arith)
