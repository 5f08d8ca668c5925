-- ===== src/Mqtt/Login/Steps.antt =====
-- mqtt_exporter.go: when a login has a user id.
use go_ecoflow_exporter.Base.{Text, codes, [], ◌∷◌, ◌≡◌, ◌≢◌, ◌↔◌, refl, ap, ◌∙◌, arith}
use go_ecoflow_exporter.Protobuf.Message.{Bytes}
use go_ecoflow_exporter.Mqtt.Login.{
  Result, ok, err, HttpRequest, HttpResponse, Api, or_return, login_url, login_params, with_headers,
  id_in_body, id_in, send_login, request_login, nonempty_id, get_user_id,
}

-- The request is made and answered with the status 200, and the answer, read to its end, names the user.
pub record Answers (C : Type 0) (api : Api C) (email password id : Text) : Type 0 where
  pub payload : Bytes
  pub request : HttpRequest
  pub response : HttpResponse
  pub body : Text
  pub marshalled : api.marshal (login_params api.base64 email password) ≡ ok payload
  pub made : api.new_request (codes "POST") login_url payload ≡ ok request
  pub sent : api.send (with_headers request) ≡ ok response
  pub accepted : response.status ≡ 200
  pub read : response.body ≡ ok body
  pub named : api.user_id body ≡ ok id
  pub nonempty : id ≢ []

module _ {C : Type 0} (api : Api C) (email password : Text) where
  answered_id :
      (id : Text) → Answers C api email password id → get_user_id api email password ≡ ok id
  unfolding get_user_id
  answered_id [] a = absurd (a.nonempty refl)
  answered_id (c ∷ id) a = rw (a.marshalled, a.made, a.sent, a.accepted, a.read, a.named) refl

  went_on :
      {A B : Type 0} (prefix : Text) (r : Result A) (k : A → Result B) (b : B)
      → or_return prefix r k ≡ ok b
      → (a : A) × (r ≡ ok a) × (k a ≡ ok b)
  went_on prefix (ok a) k b e = (a, refl, e)
  went_on prefix (err x) k b e = absurd (cc)

  was_accepted : (resp : HttpResponse) (id : Text) → id_in api resp ≡ ok id → resp.status ≡ 200
  was_accepted resp id e = ground arith

  named_id : (body id found : Text) → nonempty_id body found ≡ ok id → (found ≡ id) × (id ≢ [])
  named_id body id [] e = absurd (cc)
  named_id body id (c ∷ found) e =
      let same : c ∷ found ≡ id = cc in (same, λ n. absurd (cc (same, n)))

  id_answered :
      (id : Text) → get_user_id api email password ≡ ok id → Answers C api email password id
  unfolding get_user_id
  id_answered id e =
      let (payload, marshalled, e1) =
        went_on [] (api.marshal (login_params api.base64 email password)) (request_login api) id
          e in
      let (request, made, e2) =
        went_on (codes "failed to create login request: ")
          (api.new_request (codes "POST") login_url payload) (send_login api) id e1 in
      let (response, sent, e3) =
        went_on (codes "failed to execute login request: ") (api.send (with_headers request))
          (id_in api) id e2 in
      let accepted = was_accepted response id e3 in
      let (body, read, e4) =
        went_on (codes "failed to read response body: ") response.body (id_in_body api) id
          (rw (id_in, accepted) at e3) in
      let (found, named, e5) =
        went_on (codes "unable to unmarshal login response: ") (api.user_id body) (nonempty_id body)
          id e4 in
      let (same, nonempty) = named_id body id found e5 in
      record {
        payload = payload;
        request = request;
        response = response;
        body = body;
        marshalled = marshalled;
        made = made;
        sent = sent;
        accepted = accepted;
        read = read;
        named = named ∙ ap ok same;
        nonempty = nonempty;
      }

  -- A login gives a user id exactly if every step of it succeeds: the request is made, it is answered with the status 200,
  -- and the answer can be read and names a user; the id is the one in the answer, and is not empty. In each other
  -- case there is an error, and no id.
  pub get_user_id-Answers :
      (id : Text) → (get_user_id api email password ≡ ok id) ↔ Answers C api email password id
  get_user_id-Answers id = (id_answered id, answered_id id)
