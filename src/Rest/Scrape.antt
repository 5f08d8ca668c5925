-- ===== src/Rest/Scrape.antt =====
-- rest_exporter.go: what a scrape reports, and when the exporter is healthy.
use go_ecoflow_exporter.Base.{
  codes, inl, inr, Bool-cases, ℕ, ◌-◌, ◌*◌, ◌<◌, ◌^◌, ◌≤◌, max, Text, Bool, true, false, not, ◌&&◌,
  Option, none, List, [], ◌∷◌, ◌≡◌, ◌↔◌, refl, ap, ◌∙◌, ltb, arith, if◌then◌else◌,
}
use go_ecoflow_exporter.Base.Int.{pos, int_eq, wrap, signed, or_zero}
use go_ecoflow_exporter.Base.Dict.{Dict}
use go_ecoflow_exporter.Mqtt.Status.{second}
use go_ecoflow_exporter.Telemetry.{rest_request}
use go_ecoflow_exporter.Update.{Any, DeviceUpdate, new_device_update, dispatch}
use go_ecoflow_exporter.Rest.{
  health_limit, DeviceInfo, Answer, answered, refused, RestMetricsExporter, shifted,
  reported_device, with_answer, fetch_device, fetch_all, dispatch_updates, scrape, health,
}

if_same {ℓ} : {A : Type ℓ} (b : Bool) (x : A) → x ≡ (if b then x else x)
if_same true x = refl
if_same false x = refl

-- A product that fits into an int64 does not wrap.
wrap_small : (n : ℕ) → n < 2 ^ 63 → or_zero (wrap (pos n)) ≡ n
unfolding wrap signed
wrap_small n h = ground arith

healthy_until :
    (now limit last started : ℕ)
    → 0 < last
    → (not (ltb limit (now - (if ltb 0 last then last else started))) ≡ true) ↔ (now - last ≤ limit)
healthy_until now limit last started h = ground arith

module _ {F64 F32 W : Type 0} where
  abbrev pub report_one :
      ℕ → DeviceInfo → Answer (Dict (Any F64 F32)) → RestMetricsExporter F64 F32 W → W → W
  report_one now dev (answered params) e w =
      (dispatch e.handlers (new_device_update now (reported_device dev e) params) w).2
  report_one now dev (refused err) e w =
      if int_eq dev.online (pos 0)
      then (dispatch e.handlers (new_device_update now (reported_device dev e) []) w).2
      else w

module _ {F64 F32 W : Type 0} where
  -- The handlers' state after the listed devices are reported one after the other: with their parameters, or by their
  -- status alone where an offline device's are refused; an online device whose parameters are refused is left out.
  unfoldable pub report_all :
      (ℕ → Bool)
      → (ℕ → Bool)
      → ℕ
      → List DeviceInfo
      → (Text → Answer (Dict (Any F64 F32)))
      → RestMetricsExporter F64 F32 W
      → W
      → W
  report_all admitted live now [] answer e w = w
  report_all admitted live now (dev ∷ devs) answer e w =
      report_all (shifted admitted) (shifted live) now devs answer e
        (if admitted 0 && live 0 then report_one now dev (answer dev.sn) e w else w)

  pub fetch_all_fields :
      (admitted : ℕ → Bool) (now : ℕ) (devs : List DeviceInfo)
      (answer : Text → Answer (Dict (Any F64 F32))) (e : RestMetricsExporter F64 F32 W)
      → let e' = (fetch_all admitted now devs answer e).1 in
        (e'.handlers ≡ e.handlers)
        × (e'.world ≡ e.world)
        × (e'.last_success ≡ e.last_success)
        × (e'.interval ≡ e.interval)
        × (e'.mapping ≡ e.mapping)
  unfolding fetch_all fetch_device
  fetch_all_fields admitted now [] answer e = (refl, refl, refl, refl, refl)
  fetch_all_fields admitted now (dev ∷ devs) answer e = elim (Bool-cases (admitted 0)) [
    | inl h ↦ rw (h) (
        fetch_all_fields (shifted admitted) now devs answer
          (fetch_device now dev (answer dev.sn) e).1)
    | inr h ↦ rw (h) (fetch_all_fields (shifted admitted) now devs answer e)
  ]

  report_step :
      (live : ℕ → Bool) (now : ℕ) (dev : DeviceInfo) (a : Answer (Dict (Any F64 F32)))
      (updates : List (Option (DeviceUpdate F64 F32))) (e e' : RestMetricsExporter F64 F32 W)
      (w : W)
      → e.mapping ≡ e'.mapping
      → dispatch_updates live (with_answer now dev a e ∷ updates) e'.handlers w
        ≡ dispatch_updates
            (shifted live)
            updates
            e'.handlers
            (if live 0 then report_one now dev a e' w else w)
  unfolding dispatch_updates new_device_update
  report_step live now dev (answered params) updates e e' w same = rw (same) refl
  report_step live now dev (refused err) updates e e' w same =
      elim (Bool-cases (int_eq dev.online (pos 0))) [
        | inl offline ↦ rw (offline, same) refl
        | inr online ↦
            rw (online)
              (ap (dispatch_updates (shifted live) updates e'.handlers) (if_same (live 0) w))
      ]

  reported :
      (admitted live : ℕ → Bool) (now : ℕ) (devs : List DeviceInfo)
      (answer : Text → Answer (Dict (Any F64 F32))) (e e' : RestMetricsExporter F64 F32 W) (w : W)
      → e.mapping ≡ e'.mapping
      → dispatch_updates live (fetch_all admitted now devs answer e).0 e'.handlers w
        ≡ report_all admitted live now devs answer e' w
  unfolding fetch_all fetch_device dispatch_updates report_all
  reported admitted live now [] answer e e' w same = refl
  reported admitted live now (dev ∷ devs) answer e e' w same = elim (Bool-cases (admitted 0)) [
    | inl h ↦
        let e1 = (fetch_device now dev (answer dev.sn) e).1 in
        rw (h) (
          report_step live now dev (answer dev.sn)
            (fetch_all (shifted admitted) now devs answer e1).0 e e' w same
          ∙ reported (shifted admitted) (shifted live) now devs answer e1 e' _ same)
    | inr h ↦ rw (h) (reported (shifted admitted) (shifted live) now devs answer e e' w same)
  ]

  -- A scrape that gets the device list reports its devices in the order of the list, except for those whose
  -- request or report the context's end prevents.
  -- Each is reported with its parameters, or by its status alone if it is offline and its parameters are
  -- refused; an online device whose parameters are refused is left out, and does not hold up the others.
  pub scrape-report_all :
      (admitted live : ℕ → Bool) (now : ℕ) (devs : List DeviceInfo)
      (answer : Text → Answer (Dict (Any F64 F32))) (e : RestMetricsExporter F64 F32 W)
      → (scrape admitted live now (answered devs) answer e).world
        ≡ report_all admitted live now devs answer e e.world
  unfolding scrape
  scrape-report_all admitted live now devs answer e =
      let listed = record e {
        last_success = now;
        telemetry = rest_request (codes "device_list") none e.telemetry;
      } in
      let fields = fetch_all_fields admitted now devs answer listed in
      rw (fields.0, fields.1) (reported admitted live now devs answer listed e e.world refl)

  -- While three intervals fit into an int64 of nanoseconds, health allows three of them, and at least two minutes.
  pub health_limit_exact :
      (e : RestMetricsExporter F64 F32 W)
      → 3 * e.interval < 2 ^ 63
      → health_limit e ≡ max (3 * e.interval) (120 * second)
  unfolding health_limit
  health_limit_exact e fits = ap (λ n. max n (120 * second)) (wrap_small (3 * e.interval) fits)

  health_limit_interval :
      (e : RestMetricsExporter F64 F32 W) (interval : ℕ)
      → e.interval ≡ interval
      → 3 * interval < 2 ^ 63
      → health_limit e ≡ max (3 * interval) (120 * second)
  health_limit_interval e interval same fits =
      health_limit_exact e (rw (same) fits) ∙ rw (same) refl

  scrape_fields :
      (admitted live : ℕ → Bool) (t : ℕ) (devs : List DeviceInfo)
      (answer : Text → Answer (Dict (Any F64 F32))) (e : RestMetricsExporter F64 F32 W)
      → let e' = scrape admitted live t (answered devs) answer e in
        (e'.last_success ≡ t) × (e'.interval ≡ e.interval)
  unfolding scrape
  scrape_fields admitted live t devs answer e =
      let listed = record e {
        last_success = t;
        telemetry = rest_request (codes "device_list") none e.telemetry;
      } in
      let fields = fetch_all_fields admitted t devs answer listed in (fields.2, fields.3)

  health_until :
      (e : RestMetricsExporter F64 F32 W) (now last limit : ℕ)
      → e.last_success ≡ last
      → health_limit e ≡ limit
      → 0 < last
      → (health now e ≡ true) ↔ (now - last ≤ limit)
  unfolding health
  health_until e now last limit same allowed some_time =
      rw (health, allowed, same) (healthy_until now limit last e.started some_time)

  -- Scrapes that do not get the device list, each with its time and the API's error.
  unfoldable pub scrape_refused :
      (ℕ → Bool)
      → (ℕ → Bool)
      → List (ℕ × Text)
      → (Text → Answer (Dict (Any F64 F32)))
      → RestMetricsExporter F64 F32 W
      → RestMetricsExporter F64 F32 W
  scrape_refused admitted live [] answer e = e
  scrape_refused admitted live ((now, err) ∷ failed) answer e =
      scrape_refused admitted live failed answer (scrape admitted live now (refused err) answer e)

  scrape_refused_fields :
      (admitted live : ℕ → Bool) (failed : List (ℕ × Text))
      (answer : Text → Answer (Dict (Any F64 F32))) (e : RestMetricsExporter F64 F32 W)
      → let e' = scrape_refused admitted live failed answer e in
        (e'.last_success ≡ e.last_success) × (e'.interval ≡ e.interval)
  unfolding scrape_refused scrape
  scrape_refused_fields admitted live [] answer e = (refl, refl)
  scrape_refused_fields admitted live ((now, err) ∷ failed) answer e =
      scrape_refused_fields admitted live failed answer
        (scrape admitted live now (refused err) answer e)

  -- From a scrape that got the device list on, and for as long as the scrapes after it do not get the list, however
  -- many they are, the exporter is healthy exactly until three intervals, and at least two minutes, have
  -- passed. Assumed: three intervals fit into an int64 of nanoseconds.
  pub health-scrape :
      (admitted live : ℕ → Bool) (now t : ℕ) (failed : List (ℕ × Text)) (devs : List DeviceInfo)
      (answer : Text → Answer (Dict (Any F64 F32))) (e : RestMetricsExporter F64 F32 W)
      → 0 < t
      → 3 * e.interval < 2 ^ 63
      → let listed = scrape admitted live t (answered devs) answer e in
        (health now (scrape_refused admitted live failed answer listed) ≡ true)
        ↔ (now - t ≤ max (3 * e.interval) (120 * second))
  health-scrape admitted live now t failed devs answer e some_time fits =
      let listed = scrape admitted live t (answered devs) answer e in
      let e' = scrape_refused admitted live failed answer listed in
      let (last, interval) = scrape_fields admitted live t devs answer e in
      let (same_last, same_interval) = scrape_refused_fields admitted live failed answer listed in
      let limit : health_limit e' ≡ max (3 * e.interval) (120 * second) =
        health_limit_interval e' e.interval (same_interval ∙ interval) fits in
      health_until e' now t _ (same_last ∙ last) limit some_time
