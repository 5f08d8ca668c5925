-- ===== src/Telemetry/Order.antt =====
-- telemetry.go: counts commute, so goroutines may count in any order.
use mathlib.Core.Path.{fun_ext}
use go_ecoflow_exporter.Base.{ℕ, Text, Option, none, some, ◌≡◌, refl, ap, arith}
use go_ecoflow_exporter.Telemetry.{Telemetry, rest_request, device_seen, inc, result}
use go_ecoflow_exporter.Update.{EcoflowDevice}

inc_comm : (a b c d : Text) (f : Text → Text → ℕ) → inc a b (inc c d f) ≡ inc c d (inc a b f)
unfolding inc
inc_comm a b c d f = fun_ext (λ x. fun_ext (λ y. ground arith))

pub rest_request_comm :
    (endpoint : Text) (err err' : Option Text) (t : Option Telemetry)
    → rest_request endpoint err (rest_request endpoint err' t)
      ≡ rest_request endpoint err' (rest_request endpoint err t)
unfolding rest_request
rest_request_comm endpoint err err' none = refl
rest_request_comm endpoint err err' (some t) =
    ap (λ f. some (record t { rest_requests = f }))
      (inc_comm endpoint (result err) endpoint (result err') t.rest_requests)

pub device_seen_comm :
    (now : ℕ) (a b : EcoflowDevice) (t : Option Telemetry)
    → device_seen now a (device_seen now b t) ≡ device_seen now b (device_seen now a t)
unfolding device_seen
device_seen_comm now a b none = refl
device_seen_comm now a b (some t) =
    ap (λ f. some (record t { last_message = f })) (fun_ext (λ name. fun_ext (λ sn. ground arith)))

pub device_seen-rest_request :
    (now : ℕ) (a : EcoflowDevice) (endpoint : Text) (err : Option Text) (t : Option Telemetry)
    → device_seen now a (rest_request endpoint err t)
      ≡ rest_request endpoint err (device_seen now a t)
unfolding device_seen rest_request
device_seen-rest_request now a endpoint err none = refl
device_seen-rest_request now a endpoint err (some t) = refl
