-- ===== src/Mqtt/Status/Updates.antt =====
-- mqtt_exporter.go: `offlineUpdatesDue`.
use go_ecoflow_exporter.Base.{
  ℕ, true, none, ◌+◌, ◌<◌, leb, Text, text_eq, text_eq_iff, Bool, false, Option, some, List, [],
  ◌∷◌, ◌≡◌, refl, ap, ◌∙◌, arith, if◌then◌else◌, inl, inr, ◌&&◌, ◌||◌, Bool-cases,
}
use go_ecoflow_exporter.Base.Dict.{Dict, lookup, insert, lookup-insert}
use go_ecoflow_exporter.Mqtt.Status.{Status, is_due, due_from, offline_updates_due}

unfoldable pub contains : Text → List Text → Bool
contains sn [] = false
contains sn (x ∷ xs) = text_eq x sn || contains sn xs

module _ (now threshold : ℕ) (sn : Text) where
  -- Which devices are due, and what is recorded of them.
  pub contains-due_from :
      (offline : List Text) (sent : Dict ℕ)
      → contains sn (due_from now threshold offline sent).0
        ≡ (contains sn offline && is_due now threshold (lookup sn sent))
  unfolding contains due_from
  contains-due_from [] sent = refl
  contains-due_from (x ∷ xs) sent = elim (Bool-cases (is_due now threshold (lookup x sent))) [
    | inl e ↦ rw e (
        ground (
          arith,
          contains-due_from xs (insert x now sent),
          lookup-insert x sn now sent,
          text_eq_iff x sn,
          e,
        ))
    | inr e ↦ rw e (ground (arith, contains-due_from xs sent, text_eq_iff x sn, e))
  ]

  pub lookup-due_from :
      (offline : List Text) (sent : Dict ℕ)
      → lookup sn (due_from now threshold offline sent).1 ≡ (
          if contains sn offline && is_due now threshold (lookup sn sent)
          then some now
          else lookup sn sent)
  unfolding contains due_from
  lookup-due_from [] sent = refl
  lookup-due_from (x ∷ xs) sent = elim (Bool-cases (is_due now threshold (lookup x sent))) [
    | inl e ↦ rw e (
        ground (
          arith,
          lookup-due_from xs (insert x now sent),
          lookup-insert x sn now sent,
          text_eq_iff x sn,
          e,
        ))
    | inr e ↦ rw e (ground (arith, lookup-due_from xs sent, text_eq_iff x sn, e))
  ]

-- The offline updates of one device, over rounds of the monitor with no message from the device: the
-- time of each round with the devices that are offline then, and the times of the updates.
pub update_times : ℕ → Text → List (ℕ × List Text) → Status → List ℕ
update_times threshold sn [] st = []
update_times threshold sn ((now, offline) ∷ rounds) st =
    let (due, st') = offline_updates_due now threshold offline st in
    let rest = update_times threshold sn rounds st' in if contains sn due then now ∷ rest else rest

-- Whether a time is at least a threshold after the last one, or there is no last one.
abbrev pub is_past : ℕ → ℕ → Option ℕ → Bool
is_past threshold now none = true
is_past threshold now (some last) = leb (last + threshold) now

is_due_lem :
    (threshold now : ℕ) (last : Option ℕ)
    → 0 < threshold
    → is_due now threshold last ≡ is_past threshold now last
unfolding is_due
is_due_lem threshold now none h = refl
is_due_lem threshold now (some last) h = ground arith

-- The times that a limit of one update per threshold lets through, behind the last one.
pub limited : ℕ → Text → Option ℕ → List (ℕ × List Text) → List ℕ
limited threshold sn last [] = []
limited threshold sn last ((now, offline) ∷ rounds) =
    let skipped = limited threshold sn last rounds in
    let sent = now ∷ limited threshold sn (some now) rounds in
    if contains sn offline && is_past threshold now last then sent else skipped

-- Whatever the other devices do, a device's offline update is sent in the first round that finds it
-- offline, and then in each round that finds it offline and comes at least a threshold after the last
-- such update, and in no other round. Assumed: the threshold is positive.
pub update_times-limited :
    (threshold : ℕ) (sn : Text) (rounds : List (ℕ × List Text)) (st : Status)
    → 0 < threshold
    → update_times threshold sn rounds st ≡ limited threshold sn (lookup sn st.offline_sent) rounds
unfolding update_times limited offline_updates_due
update_times-limited threshold sn [] st positive = refl
update_times-limited threshold sn ((now, offline) ∷ rounds) st positive =
    let ih =
      update_times-limited threshold sn rounds (offline_updates_due now threshold offline st).1
        positive in
    let same = is_due_lem threshold now (lookup sn st.offline_sent) positive in
    let sent = lookup-due_from now threshold sn offline st.offline_sent in
    elim (Bool-cases (contains sn offline && is_past threshold now (lookup sn st.offline_sent))) [
      | inl e ↦
          rw (contains-due_from now threshold sn offline st.offline_sent, same, e)
            (ap (λ (ts : List ℕ). now ∷ ts)
              (ih
                ∙ ap (λ (l : Option ℕ). limited threshold sn l rounds) (sent ∙ rw (same, e) refl)))
      | inr e ↦
          rw (contains-due_from now threshold sn offline st.offline_sent, same, e)
            (ih ∙ ap (λ (l : Option ℕ). limited threshold sn l rounds) (sent ∙ rw (same, e) refl))
    ]
