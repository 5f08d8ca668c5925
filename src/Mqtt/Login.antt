-- ===== src/Mqtt/Login.antt =====
-- mqtt_exporter.go: `getUserId` and `login`, and `forceReconnect`. net/http, encoding/json and encoding/base64 and the
-- client's constructor are given.
pub mod Steps
mod Tests
use go_ecoflow_exporter.Base.{
  ℕ, ◌==◌, Text, codes, Bool, true, false, Option, none, some, List, [], ◌∷◌, ◌++◌, if◌then◌else◌,
}
use go_ecoflow_exporter.Base.Int.{pos}
use go_ecoflow_exporter.Base.Decimal.{format_nat}
use go_ecoflow_exporter.Base.Dict.{Dict}
use go_ecoflow_exporter.Telemetry.{Telemetry, mqtt_forced_reconnect, set_mqtt_connected}
use go_ecoflow_exporter.Protobuf.Message.{Bytes}
use go_ecoflow_exporter.Mqtt.Connection.{on_connection_lost}

-- A value and an error, one of which Go uses.
pub data Result (A : Type 0) : Type 0 where
  ok : A → Result A
  err : Text → Result A

pub record HttpRequest : Type 0 where
  pub method : Text
  pub url : Text
  pub headers : Dict Text
  pub body : Bytes

pub record HttpResponse : Type 0 where
  pub status : ℕ
  pub body : Result Text

-- `send` is NewRequestWithContext and Do, each with its error; `user_id` reads "data.user.userId", empty where it is
-- missing. The body of a response that cannot be read to its end is `partial` for the message.
pub record Api (C : Type 0) : Type 0 where
  pub base64 : Text → Text
  pub marshal : Dict Text → Result Bytes
  pub new_request : Text → Text → Bytes → Result HttpRequest
  pub send : HttpRequest → Result HttpResponse
  pub partial : HttpResponse → Text
  pub user_id : Text → Result Text
  pub new_client : Text → Text → Result C

module _ {A B : Type 0} where
  -- `if err != nil { return …, fmt.Errorf(prefix + "%w", err) }`, and what follows.
  abbrev pub or_return : Text → Result A → (A → Result B) → Result B
  or_return prefix (ok a) k = k a
  or_return prefix (err e) k = err (prefix ++ e)

abbrev pub login_url : Text
login_url = codes "https://api.ecoflow.com/auth/login"

unfoldable pub login_params : (Text → Text) → Text → Text → Dict Text
login_params base64 email password =
    (codes "email", email)
    ∷ (codes "password", base64 password)
    ∷ (codes "scene", codes "IOT_APP")
    ∷ (codes "userType", codes "ECOFLOW")
    ∷ []

-- The two calls of Header.Add.
abbrev pub with_headers : HttpRequest → HttpRequest
with_headers req = record req {
  headers =
      req.headers
      ++ (codes "lang", codes "en_US") ∷ (codes "content-type", codes "application/json") ∷ [];
}

-- "login failed with status %d: %s"
abbrev pub failed_status : Text → ℕ → Text
failed_status body status =
    codes "login failed with status " ++ format_nat status ++ codes ": " ++ body

abbrev pub nonempty_id : Text → Text → Result Text
nonempty_id body [] = err (codes "empty userId in login response: " ++ body)
nonempty_id body (c ∷ id) = ok (c ∷ id)

module _ {C : Type 0} (api : Api C) where
  -- What follows on each step, from the last one on.
  abbrev pub id_in_body : Text → Result Text
  id_in_body body =
      or_return (codes "unable to unmarshal login response: ") (api.user_id body) (nonempty_id body)

  abbrev pub id_in : HttpResponse → Result Text
  id_in resp =
      if resp.status == 200
      then or_return (codes "failed to read response body: ") resp.body id_in_body
      else err (failed_status (api.partial resp) resp.status)

  abbrev pub send_login : HttpRequest → Result Text
  send_login req =
      or_return (codes "failed to execute login request: ") (api.send (with_headers req)) id_in

  abbrev pub request_login : Bytes → Result Text
  request_login payload =
      or_return (codes "failed to create login request: ")
        (api.new_request (codes "POST") login_url payload) send_login

  unfoldable pub get_user_id : Text → Text → Result Text
  get_user_id email password =
      or_return [] (api.marshal (login_params api.base64 email password)) request_login

  -- The client or an error, and the user id that is stored then.
  abbrev pub with_user_id : Text → Text → Text → Result Text → Result C × Text
  with_user_id email password before (err e) = (err (codes "failed to get user ID: " ++ e), before)
  with_user_id email password before (ok id) = (api.new_client email password, id)

  unfoldable pub login : Text → Text → Text → Result C × Text
  login email password before = with_user_id email password before (get_user_id email password)

-- The calls of the client in `forceReconnect`, in order, by whether the context ends in the wait before the connection.
pub data ClientCall : Type 0 where
  disconnect connect : ClientCall

unfoldable pub force_reconnect : Bool → Option Telemetry → List ClientCall × Option Telemetry
force_reconnect cancelled t = (
  disconnect ∷ (if cancelled then [] else connect ∷ []),
  set_mqtt_connected false (mqtt_forced_reconnect t),
)
