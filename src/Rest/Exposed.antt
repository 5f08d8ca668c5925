-- ===== src/Rest/Exposed.antt =====
-- rest_exporter.go and prometheus.go together: what the scrapes make the exporter expose.
use go_ecoflow_exporter.Base.{
  codes, inl, inr, Bool-cases, ℕ, Text, Bool, ◌&&◌, Option, none, List, [], ◌∷◌, ◌++◌, ◌≡◌, refl,
  ap, ◌∙◌, sym, All, if◌then◌else◌,
}
use go_ecoflow_exporter.Base.Int.{pos, int_eq}
use go_ecoflow_exporter.Base.Dict.{Dict}
use go_ecoflow_exporter.Name.{Unicode}
use go_ecoflow_exporter.Name.Key.{IsSerial}
use go_ecoflow_exporter.Telemetry.{Telemetry, rest_request}
use go_ecoflow_exporter.Update.{Floats, Any, get_device_name}
use go_ecoflow_exporter.Prometheus.{PrometheusExporter, new_prometheus_exporter}
use go_ecoflow_exporter.Prometheus.Online.{value_at}
use go_ecoflow_exporter.Prometheus.Invariant.{handle_all}
use go_ecoflow_exporter.Prometheus.Refinement.{
  Report, updates, Reporter, board_after, handle_all-board_after,
}
use go_ecoflow_exporter.Mqtt.Events.Silent.{prom_only, dispatch-prom_only}
use go_ecoflow_exporter.Rest.{
  DeviceInfo, Answer, answered, refused, RestMetricsExporter, shifted, Scraped, scrape, scrape_all,
  run_rest, new_rest_metrics_exporter,
}
use go_ecoflow_exporter.Rest.Scrape.{report_one, report_all, fetch_all_fields, scrape-report_all}

module _ {F64 F32 : Type 0} (mapping : Dict Text) where
  -- What the API's answers report: a device with its parameters, or the status of an offline device.
  abbrev report_of : ℕ → DeviceInfo → Dict (Any F64 F32) → Report F64 F32
  report_of now dev params = record {
    now = now;
    device = record { sn = dev.sn; name = get_device_name mapping dev.sn; online = dev.online };
    params = params;
  }

  abbrev answer_reports : ℕ → DeviceInfo → Answer (Dict (Any F64 F32)) → List (Report F64 F32)
  answer_reports now dev (answered params) = report_of now dev params ∷ []
  answer_reports now dev (refused err) =
      if int_eq dev.online (pos 0) then report_of now dev [] ∷ [] else []

  module _ (now : ℕ) (answer : Text → Answer (Dict (Any F64 F32))) where
    abbrev list_reports : (ℕ → Bool) → (ℕ → Bool) → List DeviceInfo → List (Report F64 F32)
    list_reports admitted live [] = []
    list_reports admitted live (dev ∷ devs) =
        (if admitted 0 && live 0 then answer_reports now dev (answer dev.sn) else [])
        ++ list_reports (shifted admitted) (shifted live) devs

    abbrev devices_reports :
        (ℕ → Bool) → (ℕ → Bool) → Answer (List DeviceInfo) → List (Report F64 F32)
    devices_reports admitted live (answered devs) = list_reports admitted live devs
    devices_reports admitted live (refused err) = []

  -- The reports of scrapes, in order. A device that the context's end keeps back, and an online device whose parameters
  -- are refused, has none; nor has a scrape that does not get the list.
  abbrev pub reports : List (Scraped F64 F32) → List (Report F64 F32)
  reports [] = []
  reports (s ∷ ss) = devices_reports s.now s.answer s.admitted s.live s.devices ++ reports ss

module _ {F64 F32 : Type 0} (fl : Floats F64 F32) (u : Unicode) (prefix : Text)
    (mapping : Dict Text) where
  abbrev all_told : List (Report F64 F32) → PrometheusExporter F64 → PrometheusExporter F64
  all_told rs p = handle_all fl u (updates rs) p

  all_told-append :
      (rs rs' : List (Report F64 F32)) (p : PrometheusExporter F64)
      → all_told (rs ++ rs') p ≡ all_told rs' (all_told rs p)
  unfolding handle_all
  all_told-append [] rs' p = refl
  all_told-append (r ∷ rs) rs' p = all_told-append rs rs' _

  -- The exporter as `createExporter` makes it keeps its handler and its names.
  record IsWired (e : RestMetricsExporter F64 F32 (PrometheusExporter F64)) : Type 0 where
    wired : e.handlers ≡ prom_only fl u prefix
    named : e.mapping ≡ mapping

  module _ (now : ℕ) (answer : Text → Answer (Dict (Any F64 F32))) where
    report_one-told :
        (dev : DeviceInfo) (a : Answer (Dict (Any F64 F32)))
        (e : RestMetricsExporter F64 F32 (PrometheusExporter F64)) (p : PrometheusExporter F64)
        → IsWired e
        → report_one now dev a e p ≡ all_told (answer_reports mapping now dev a) p
    unfolding handle_all
    report_one-told dev (answered params) e p h =
        rw (h.wired, h.named) (dispatch-prom_only fl u prefix (report_of mapping now dev params) p)
    report_one-told dev (refused err) e p h = elim (Bool-cases (int_eq dev.online (pos 0))) [
      | inl c ↦
          rw (c, h.wired, h.named) (dispatch-prom_only fl u prefix (report_of mapping now dev []) p)
      | inr c ↦ rw (c) refl
    ]

    report_all-told :
        (admitted live : ℕ → Bool) (devs : List DeviceInfo)
        (e : RestMetricsExporter F64 F32 (PrometheusExporter F64)) (p : PrometheusExporter F64)
        → IsWired e
        → report_all admitted live now devs answer e p
          ≡ all_told (list_reports mapping now answer admitted live devs) p
    unfolding report_all handle_all
    report_all-told admitted live [] e p h = refl
    report_all-told admitted live (dev ∷ devs) e p h =
        let rest = list_reports mapping now answer (shifted admitted) (shifted live) devs in
        elim (Bool-cases (admitted 0 && live 0)) [
          | inl c ↦ rw (c) (
              report_all-told (shifted admitted) (shifted live) devs e _ h
              ∙ ap (all_told rest) (report_one-told dev (answer dev.sn) e p h)
              ∙ sym (all_told-append (answer_reports mapping now dev (answer dev.sn)) rest p))
          | inr c ↦ rw (c) (report_all-told (shifted admitted) (shifted live) devs e p h)
        ]

    scrape-IsWired :
        (admitted live : ℕ → Bool) (list : Answer (List DeviceInfo))
        (e : RestMetricsExporter F64 F32 (PrometheusExporter F64))
        → IsWired e
        → IsWired (scrape admitted live now list answer e)
    unfolding scrape
    scrape-IsWired admitted live (refused err) e h = record { wired = h.wired; named = h.named }
    scrape-IsWired admitted live (answered devs) e h =
        let listed = record e {
          last_success = now;
          telemetry = rest_request (codes "device_list") none e.telemetry;
        } in
        let (handlers, world, last, interval, names) =
          fetch_all_fields admitted now devs answer listed in
        record { wired = handlers ∙ h.wired; named = names ∙ h.named }

    scrape-told :
        (admitted live : ℕ → Bool) (list : Answer (List DeviceInfo))
        (e : RestMetricsExporter F64 F32 (PrometheusExporter F64))
        → IsWired e
        → (scrape admitted live now list answer e).world
          ≡ all_told (devices_reports mapping now answer admitted live list) e.world
    unfolding scrape handle_all
    scrape-told admitted live (refused err) e h = refl
    scrape-told admitted live (answered devs) e h =
        scrape-report_all admitted live now devs answer e
        ∙ report_all-told admitted live devs e e.world h

  scrape_all-told :
      (scrapes : List (Scraped F64 F32)) (e : RestMetricsExporter F64 F32 (PrometheusExporter F64))
      → IsWired e
      → (scrape_all scrapes e).world ≡ all_told (reports mapping scrapes) e.world
  unfolding scrape_all handle_all
  scrape_all-told [] e h = refl
  scrape_all-told (s ∷ ss) e h =
      let after = scrape s.admitted s.live s.now s.devices s.answer e in
      let first = devices_reports mapping s.now s.answer s.admitted s.live s.devices in
      scrape_all-told ss after (scrape-IsWired s.now s.answer s.admitted s.live s.devices e h)
      ∙ ap (all_told (reports mapping ss))
          (scrape-told s.now s.answer s.admitted s.live s.devices e h)
      ∙ sym (all_told-append first (reports mapping ss) e.world)

  -- However often `Run` scrapes and whatever the API answers, the value of a series is then the one of the board that
  -- starts empty and gets, scrape by scrape in the order of the lists, a report of each device whose parameters were
  -- answered, with them, and of each offline device whose parameters were refused, without any. A report of an online device
  -- writes its last numeric sample of each name, one of an offline device clears the device, and either writes the
  -- status under `online`. Devices that the context's end keeps back write nothing. Assumed: no serial number has an
  -- underscore.
  pub run_rest-board_after :
      (interval now : ℕ) (telemetry : Option Telemetry) (scrapes : List (Scraped F64 F32))
      (sn n : Text)
      → All Reporter (reports mapping scrapes)
      → IsSerial sn
      → value_at sn n
          (run_rest now scrapes (
            new_rest_metrics_exporter interval mapping
              (prom_only fl u prefix)
              telemetry
              (new_prometheus_exporter F64 prefix))).world
        ≡ board_after fl u prefix (reports mapping scrapes) (λ s m. none) sn n
  unfolding run_rest new_rest_metrics_exporter
  run_rest-board_after interval now telemetry scrapes sn n hr hs =
      ap (value_at sn n) (scrape_all-told scrapes _ (record { wired = refl; named = refl }))
      ∙ handle_all-board_after fl u prefix (reports mapping scrapes) sn n hr hs
