-- ===== src/Mqtt/Threads/Tracked.antt =====
-- mqtt_exporter.go: the devices that a round of the monitor holds were all heard of.
use go_ecoflow_exporter.Base.{ℕ, Text, true, List, [], ◌∷◌, ◌≡◌, inl, inr, arith, All, In}
use go_ecoflow_exporter.Base.Dict.{Dict, has}
use go_ecoflow_exporter.Mqtt.Status.{Status, offline_devices, offline_updates_due}
use go_ecoflow_exporter.Mqtt.Status.Invariant.{IsSound}
use go_ecoflow_exporter.Mqtt.Status.Offline.{offline_devices_exact}
use go_ecoflow_exporter.Mqtt.Status.Updates.{contains, contains-due_from}
use go_ecoflow_exporter.Mqtt.Events.Invariant.{contains-In, In-contains, All-of_In}
use go_ecoflow_exporter.Mqtt.Threads.{Round, idle, looked, sending}

abbrev pub IsTracked : Status → Text → Type 0
IsTracked st sn = has sn st.last_received ≡ true

-- The lists of a round hold devices that were heard of.
abbrev pub AreTracked : Status → Round → Type 0
AreTracked st idle = Unit
AreTracked st (looked offline) = All (IsTracked st) offline
AreTracked st (sending offline due) = All (IsTracked st) offline × All (IsTracked st) due

All-map :
    {A : Type 0} (P Q : A → Type 0) (xs : List A) → ((x : A) → P x → Q x) → All P xs → All Q xs
All-map P Q [] f h = h
All-map P Q (x ∷ xs) f (p, h) = (f x p, All-map P Q xs f h)

In-All : (P : Text → Type 0) (xs : List Text) (x : Text) → All P xs → In x xs → P x
In-All P [] x h i = absurd i
In-All P (y ∷ ys) x (p, h) (inl e) = rw (e) p
In-All P (y ∷ ys) x (p, h) (inr i) = In-All P ys x h i

pub AreTracked-grows :
    (st st' : Status) (round : Round)
    → ((sn : Text) → IsTracked st sn → IsTracked st' sn)
    → AreTracked st round
    → AreTracked st' round
AreTracked-grows st st' idle f h = h
AreTracked-grows st st' (looked offline) f h = All-map (IsTracked st) (IsTracked st') offline f h
AreTracked-grows st st' (sending offline due) f (h, h') = (
  All-map (IsTracked st) (IsTracked st') offline f h,
  All-map (IsTracked st) (IsTracked st') due f h',
)

module _ (now threshold : ℕ) (st : Status) where
  pub offline-IsTracked :
      {devices : Dict Text}
      → IsSound devices threshold st
      → All (IsTracked st) (offline_devices now threshold st)
  offline-IsTracked sound = All-of_In (offline_devices now threshold st) (λ sn i.
      let (last, l, late) = (offline_devices_exact now threshold st sound.unique_received sn).0 i in
      ground (arith, l))

  pub due-IsTracked :
      (offline : List Text)
      → All (IsTracked st) offline
      → All (IsTracked st) (offline_updates_due now threshold offline st).0
  unfolding offline_updates_due
  due-IsTracked offline h = All-of_In (offline_updates_due now threshold offline st).0 (λ sn i.
      let due = contains-In sn (offline_updates_due now threshold offline st).0 i in
      let found : contains sn offline ≡ true =
        ground (arith, due, contains-due_from now threshold sn offline st.offline_sent) in
      In-All (IsTracked st) offline sn h (In-contains sn offline found))
