-- ===== src/Rest.antt =====
-- rest_exporter.go: the polling of the REST API. The answers of the API are given. A scrape makes its requests one after the
-- other here; the goroutines that make them in the program are those of Rest/Parallel.
pub mod Scrape
pub mod Exposed
pub mod Parallel
mod Tests
use go_ecoflow_exporter.Base.{
  ℕ, suc, ◌-◌, ◌*◌, max, Text, codes, Bool, true, false, not, Option, none, some, List, [], ◌∷◌,
  ltb, if◌then◌else◌,
}
use go_ecoflow_exporter.Base.Int.{ℤ, pos, int_eq, wrap, or_zero}
use go_ecoflow_exporter.Base.Dict.{Dict}
use go_ecoflow_exporter.Mqtt.Status.{second}
use go_ecoflow_exporter.Telemetry.{Telemetry, rest_request, device_seen}
use go_ecoflow_exporter.Update.{
  EcoflowDevice, Any, DeviceUpdate, get_device_name, new_device_update, MetricHandler, dispatch,
}

-- A device of the API's list.
pub record DeviceInfo : Type 0 where
  pub sn : Text
  pub online : ℤ

-- What a call of the API returns.
pub data Answer (A : Type 0) : Type 0 where
  answered : A → Answer A
  refused : Text → Answer A

-- A test on the places of a list, for the places of its rest.
abbrev pub shifted : (ℕ → Bool) → ℕ → Bool
shifted test i = test (suc i)

abbrev pub error_of : {A : Type 0} → Answer A → Option Text
error_of (answered a) = none
error_of (refused err) = some err

module _ {F64 F32 : Type 0} where
  abbrev with_seen :
      ℕ → EcoflowDevice → Answer (Dict (Any F64 F32)) → Option Telemetry → Option Telemetry
  with_seen now device (answered params) t = device_seen now device t
  with_seen now device (refused err) t = t

-- Times are numbers of nanoseconds, and the zero time is 0.
pub record RestMetricsExporter (F64 F32 W : Type 0) : Type 0 where
  pub interval : ℕ
  pub handlers : List (MetricHandler W (DeviceUpdate F64 F32))
  pub mapping : Dict Text
  pub telemetry : Option Telemetry
  pub started : ℕ
  pub last_success : ℕ
  pub world : W

module _ {F64 F32 W : Type 0} where
  abbrev pub reported_device : DeviceInfo → RestMetricsExporter F64 F32 W → EcoflowDevice
  reported_device dev e = record {
    sn = dev.sn;
    name = get_device_name e.mapping dev.sn;
    online = dev.online;
  }

  abbrev pub with_answer :
      ℕ
      → DeviceInfo
      → Answer (Dict (Any F64 F32))
      → RestMetricsExporter F64 F32 W
      → Option (DeviceUpdate F64 F32)
  with_answer now dev (answered params) e =
      some (new_device_update now (reported_device dev e) params)
  with_answer now dev (refused err) e =
      if int_eq dev.online (pos 0)
      then some (new_device_update now (reported_device dev e) [])
      else none

  -- The update, `none` for nil, and the exporter with its telemetry.
  unfoldable pub fetch_device :
      ℕ
      → DeviceInfo
      → Answer (Dict (Any F64 F32))
      → RestMetricsExporter F64 F32 W
      → Option (DeviceUpdate F64 F32) × RestMetricsExporter F64 F32 W
  fetch_device now dev answer e = (
    with_answer now dev answer e,
    record e {
      telemetry =
          with_seen now (reported_device dev e) answer
            (rest_request (codes "device_quota") (error_of answer) e.telemetry);
    },
  )

  -- The requests for all devices of the list: the updates in the order of the list. A goroutine that the
  -- context's end keeps from `admitted` leaves nil; `admitted` tells it of a place in the list.
  unfoldable pub fetch_all :
      (ℕ → Bool)
      → ℕ
      → List DeviceInfo
      → (Text → Answer (Dict (Any F64 F32)))
      → RestMetricsExporter F64 F32 W
      → List (Option (DeviceUpdate F64 F32)) × RestMetricsExporter F64 F32 W
  fetch_all admitted now [] answer e = ([], e)
  fetch_all admitted now (dev ∷ devs) answer e =
      let (update, e') = if admitted 0 then fetch_device now dev (answer dev.sn) e else (none, e) in
      let (updates, e'') = fetch_all (shifted admitted) now devs answer e' in
      (update ∷ updates, e'')

  -- The loop over the updates; `live` tells at which places the context is not done yet.
  unfoldable pub dispatch_updates :
      (ℕ → Bool)
      → List (Option (DeviceUpdate F64 F32))
      → List (MetricHandler W (DeviceUpdate F64 F32))
      → W
      → W
  dispatch_updates live [] handlers w = w
  dispatch_updates live (none ∷ updates) handlers w =
      dispatch_updates (shifted live) updates handlers w
  dispatch_updates live (some u ∷ updates) handlers w =
      dispatch_updates (shifted live) updates handlers
        (if live 0 then (dispatch handlers u w).2 else w)

  abbrev with_list :
      (ℕ → Bool)
      → (ℕ → Bool)
      → ℕ
      → Answer (List DeviceInfo)
      → (Text → Answer (Dict (Any F64 F32)))
      → RestMetricsExporter F64 F32 W
      → RestMetricsExporter F64 F32 W
  with_list admitted live now (refused err) answer e = e
  with_list admitted live now (answered devs) answer e =
      let (updates, e') = fetch_all admitted now devs answer (record e { last_success = now }) in
      record e' { world = dispatch_updates live updates e'.handlers e'.world }

  unfoldable pub scrape :
      (ℕ → Bool)
      → (ℕ → Bool)
      → ℕ
      → Answer (List DeviceInfo)
      → (Text → Answer (Dict (Any F64 F32)))
      → RestMetricsExporter F64 F32 W
      → RestMetricsExporter F64 F32 W
  scrape admitted live now devices answer e =
      with_list admitted live now devices answer
        (record e { telemetry = rest_request (codes "device_list") (error_of devices) e.telemetry })

  -- The product of the int64 wraps; a negative one is under the two minutes like 0.
  unfoldable pub health_limit : RestMetricsExporter F64 F32 W → ℕ
  health_limit e = max (or_zero (wrap (pos (3 * e.interval)))) (120 * second)

  -- Whether Health returns no error.
  unfoldable pub health : ℕ → RestMetricsExporter F64 F32 W → Bool
  health now e =
      let last = if ltb 0 e.last_success then e.last_success else e.started in
      not (ltb (health_limit e) (now - last))

-- NewRestMetricsExporter
unfoldable pub new_rest_metrics_exporter :
    {F64 F32 W : Type 0}
    → ℕ
    → Dict Text
    → List (MetricHandler W (DeviceUpdate F64 F32))
    → Option Telemetry
    → W
    → RestMetricsExporter F64 F32 W
new_rest_metrics_exporter interval mapping handlers telemetry world = record {
  interval = interval;
  handlers = handlers;
  mapping = mapping;
  telemetry = telemetry;
  started = 0;
  last_success = 0;
  world = world;
}

-- A scrape of `Run`: when it reads the clock, what the API answers, and which places of the list the context's end lets through.
pub record Scraped (F64 F32 : Type 0) : Type 0 where
  pub now : ℕ
  pub devices : Answer (List DeviceInfo)
  pub answer : Text → Answer (Dict (Any F64 F32))
  pub admitted : ℕ → Bool
  pub live : ℕ → Bool

module _ {F64 F32 W : Type 0} where
  unfoldable pub scrape_all :
      List (Scraped F64 F32) → RestMetricsExporter F64 F32 W → RestMetricsExporter F64 F32 W
  scrape_all [] e = e
  scrape_all (s ∷ ss) e = scrape_all ss (scrape s.admitted s.live s.now s.devices s.answer e)

  -- Run, from its start to the context's end, with the scrapes in between.
  unfoldable pub run_rest :
      ℕ → List (Scraped F64 F32) → RestMetricsExporter F64 F32 W → RestMetricsExporter F64 F32 W
  run_rest now scrapes e = scrape_all scrapes (record e { started = now })
