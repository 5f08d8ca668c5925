-- ===== src/Mqtt/Login/Tests.antt =====
-- The theorem on logins at concrete values.
use go_ecoflow_exporter.Base.{ℕ, codes, [], ◌≡◌, ◌↔◌, refl}
use go_ecoflow_exporter.Mqtt.Login.{ok, HttpResponse, Api, get_user_id}
use go_ecoflow_exporter.Mqtt.Login.Steps.{Answers, get_user_id-Answers}

abbrev fine : HttpResponse
fine = record { status = 200; body = ok (codes "42") }

-- A server that takes every request.
abbrev kind_api : Api ℕ
kind_api = record {
  base64 = λ s. s;
  marshal = λ params. ok [];
  new_request = λ method url payload.
      ok (record { method = method; url = url; headers = []; body = payload });
  send = λ request. ok fine;
  partial = λ response. [];
  user_id = λ body. ok body;
  new_client = λ email password. ok 1;
}

logs_in : get_user_id kind_api (codes "a@b") (codes "secret") ≡ ok (codes "42")
unfolding get_user_id
logs_in = refl

get_user_id-Answers_example :
    (get_user_id kind_api (codes "a@b") (codes "secret") ≡ ok (codes "42"))
    ↔ Answers ℕ kind_api (codes "a@b") (codes "secret") (codes "42")
get_user_id-Answers_example =
    get_user_id-Answers kind_api (codes "a@b") (codes "secret") (codes "42")
