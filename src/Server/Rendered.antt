-- ===== src/Server/Rendered.antt =====
-- What a client sees of a response, and what the log says of it.
use k8s_container_service_pr.Base.{ℕ, String, List, [], ◌∷◌, ◌≡◌, refl, ap, ◌∙◌, Result, ok}
use k8s_container_service_pr.Api.{Container}
use k8s_container_service_pr.Handlers.Errors.{Response, success, problem, returned}
use k8s_container_service_pr.Handlers.Handler.Laws.{response_code}
use k8s_container_service_pr.Apiserver.Recovery.{
  logged_status, HandlerRun, WriterCall, set_header, write_header, write, returns,
}
use k8s_container_service_pr.Apiserver.Router.{Request}
use k8s_container_service_pr.Apiserver.Router.Laws.{outer}
use k8s_container_service_pr.Server.Responses.{
  Wire, visit, visit_body, visit_delete_container_response, visit_get_container_response,
}
use k8s_container_service_pr.Server.Strict.{
  StrictServerInterface, StrictHttpServerOptions, responded, answer, visited,
}
use k8s_container_service_pr.Server.Exchanges.{WireLaws, Encodes, Sent, Shows}

abbrev body_calls : String → ℕ → String → List WriterCall
body_calls content_type status body =
    set_header "Content-Type" content_type ∷ write_header status ∷ write body ∷ []

abbrev body_run : String → ℕ → String → HandlerRun
body_run content_type status body = record {
  calls = body_calls content_type status body;
  ending = returns;
}

module _ {W : Type 0} (wire : Wire) (laws : WireLaws wire) (ssi : StrictServerInterface W)
    (options : StrictHttpServerOptions) (r : Request) (w : W) where
  -- A response whose body is encoded and sent.
  answer_of-visit :
      {A : Type 0} (encode : A → Result String String) (response : Response A)
      (content_type : String) (status : ℕ) (body : String)
      → visit wire encode response ≡ visit_body wire content_type status (ok body)
      → answer wire ssi options (visit wire encode) r (returned (responded response))
        ≡ body_run content_type status body
  answer_of-visit encode response content_type status body e =
      ap (visited wire ssi options r) e
      ∙ ap (λ s. visited wire ssi options r (body_calls content_type status body, s))
          (laws.sends body)

  pub answer-Sent :
      {A : Type 0} (encode : A → Result String String) (response : Response A)
      → Encodes encode response
      → Sent (response_code response) (
          outer r
            (answer wire ssi options (visit wire encode) r (returned (responded response)), w))
  unfolding logged_status
  answer-Sent encode (success status a) (body, e) =
      rw
        (answer_of-visit encode (success status a) "application/json" status body
          (ap (visit_body wire "application/json" status) e))
        (refl, refl)
  answer-Sent encode (problem status p) encoded =
      let (body, e) = laws.encodes_error p in
      rw
        (answer_of-visit encode (problem status p) "application/problem+json" status body
          (ap (visit_body wire "application/problem+json" status) e))
        (refl, refl)

  pub delete-Sent :
      (response : Response (Unit {0}))
      → Sent (response_code response) (
          outer r (
            answer wire ssi options
                (visit_delete_container_response wire)
                r
                (returned (responded response)),
            w,
          ))
  unfolding logged_status visit_delete_container_response
  delete-Sent (success status a) = (refl, refl)
  delete-Sent (problem status p) = answer-Sent (λ (u : Unit {0}). ok "") (problem status p) tt

  pub get-Shows :
      (status : ℕ) (c : Container)
      → ((b : String) × (wire.encode_container c ≡ ok b))
      → Shows wire status c (
          outer r (
            answer wire ssi options
                (visit_get_container_response wire)
                r
                (returned (responded (success status c))),
            w,
          ))
  unfolding logged_status visit_get_container_response
  get-Shows status c (body, e) =
      rw
        (answer_of-visit wire.encode_container (success status c) "application/json" status body
          (ap (visit_body wire "application/json" status) e))
        ((refl, refl), (body, e, refl))
