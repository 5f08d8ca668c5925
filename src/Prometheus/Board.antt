-- ===== src/Prometheus/Board.antt =====
-- prometheus.go: the exporter against the board that it promises, a value for each device and metric name.
use go_ecoflow_exporter.Base.{
  Text, text_eq, text_eq_iff, text_eq_no, text_eq_refl, Option, none, some, List, ◌≡◌, ◌≢◌, refl,
  ap, sym, ◌∙◌, arith, inl, inr, Bool-cases, Option-cases, if◌then◌else◌,
}
use go_ecoflow_exporter.Base.Int.{pos, int_eq}
use go_ecoflow_exporter.Base.Dict.{lookup, delete_where, lookup-delete_where}
use go_ecoflow_exporter.Name.{Unicode}
use go_ecoflow_exporter.Name.Key.{IsSerial, key_injective}
use go_ecoflow_exporter.Update.{Floats, EcoflowDevice, Sample}
use go_ecoflow_exporter.Prometheus.{
  PromSample, PrometheusExporter, metric_key, is_stale, online_name, store,
}
use go_ecoflow_exporter.Prometheus.SetLocked.{IsWellFormed}
use go_ecoflow_exporter.Prometheus.Online.{
  value_at, latest, value_at-set_locked, value_at-set_samples,
}
use go_ecoflow_exporter.Prometheus.Frame.{frame-store_offline, frame-store_online}
use go_ecoflow_exporter.Prometheus.Serials.{HasSerials}

-- The values that are exposed, by serial number and metric name.
abbrev pub Board : Type 0 → Type 0
Board V = Text → Text → Option V

module _ {F64 F32 : Type 0} (fl : Floats F64 F32) where
  -- What an update does to the board: an online device's numeric samples replace its values of the same names; an offline
  -- device loses all of its values; and `online` holds the status.
  abbrev pub posted : Text → EcoflowDevice → List (Sample F64 F32) → Board F64 → Board F64
  posted online device ss board sn n =
      if text_eq device.sn sn
      then (if text_eq online n
          then some (fl.of_int device.online)
          else if int_eq device.online (pos 0)
          then none
          else latest n ss (board sn n))
      else board sn n

module _ {V : Type 0} (p : PrometheusExporter V) (ok : IsWellFormed V p) (hp : HasSerials p) where
  -- The series under a key of a serial number has that number and name.
  at_key :
      (sn n : Text) (s : PromSample V)
      → IsSerial sn
      → lookup (metric_key sn n) p.metrics ≡ some s
      → (sn ≡ s.sn) × (n ≡ s.name)
  at_key sn n s hs l =
      key_injective sn s.sn n s.name hs (hp (metric_key sn n) s l) (ok.keyed (metric_key sn n) s l)

  -- Deleting the stale series of a device.
  kept_at :
      (owner online sn n : Text)
      → IsSerial sn
      → value_at sn n (record p { metrics = delete_where (is_stale owner online) p.metrics }) ≡ (
          if text_eq owner sn
          then (if text_eq online n then value_at sn n p else none)
          else value_at sn n p)
  unfolding value_at
  kept_at owner online sn n hs =
      let key = metric_key sn n in
      elim (Option-cases (lookup key p.metrics)) [
        | inl e ↦
            ground (arith, lookup-delete_where (is_stale owner online) key p.metrics ok.unique, e)
        | inr (s, e) ↦
            let (same_sn, same_n) = at_key sn n s hs e in
            ground (
              arith,
              lookup-delete_where (is_stale owner online) key p.metrics ok.unique,
              e,
              text_eq_iff s.sn owner,
              text_eq_iff owner sn,
              text_eq_iff s.name online,
              text_eq_iff online n,
              same_sn,
              same_n,
            )
      ]

module _ {F64 F32 : Type 0} (fl : Floats F64 F32) (u : Unicode) (device : EcoflowDevice)
    (hd : IsSerial device.sn) (ss : List (Sample F64 F32)) (p : PrometheusExporter F64)
    (ok : IsWellFormed F64 p) (hp : HasSerials p) where
  abbrev online : Text
  online = online_name u p.prefix device.sn

  abbrev board : Board F64
  board = λ sn n. value_at sn n p

  own_value-store :
      (n : Text)
      → value_at device.sn n (store fl u device ss p) ≡ posted fl online device ss board device.sn n
  unfolding store
  own_value-store n = elim (Bool-cases (int_eq device.online (pos 0))) [
    | inl off ↦
        rw (off, value_at-set_locked, text_eq_refl)
          (ground (arith, kept_at p ok hp device.sn online device.sn n hd, text_eq_refl device.sn))
    | inr on ↦ rw (on, value_at-set_locked, value_at-set_samples, text_eq_refl) refl
  ]

  module _ (sn n : Text) (other : sn ≢ device.sn) (hs : IsSerial sn) where
    other_value-store : value_at sn n (store fl u device ss p) ≡ value_at sn n p
    unfolding value_at
    other_value-store =
        let key = metric_key sn n in
        elim (Bool-cases (int_eq device.online (pos 0))) [
          | inl off ↦
              ap (λ o. elim o [ none ↦ none | some s ↦ some s.value ])
                (frame-store_offline device sn n key other hs hd refl fl u ss p off)
              ∙ kept_at p ok hp device.sn online sn n hs
              ∙ rw (text_eq_no device.sn sn (λ e. other (sym e))) refl
          | inr on ↦
              ap (λ o. elim o [ none ↦ none | some s ↦ some s.value ])
                (frame-store_online device sn n key other hs hd refl fl u ss p on)
        ]

  pub value_at-store :
      (sn n : Text)
      → IsSerial sn
      → value_at sn n (store fl u device ss p) ≡ posted fl online device ss board sn n
  value_at-store sn n hs = elim (Bool-cases (text_eq device.sn sn)) [
    | inl same ↦ rw (← (text_eq_iff device.sn sn).0 same) (own_value-store n)
    | inr differs ↦
        rw (differs) (other_value-store sn n (λ e. ground (arith, text_eq_iff device.sn sn, e)) hs)
  ]
