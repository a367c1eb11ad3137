-- ===== src/Server/Responses.antt =====
-- The response types of the generated server and their Visit methods, which write a response.
use k8s_container_service_pr.Base.{ℕ, String, List, [], ◌∷◌, Result, ok, err}
use k8s_container_service_pr.Api.{Container, ContainerList, Error, Health}
use k8s_container_service_pr.Handlers.Errors.{Response, success, problem}
use k8s_container_service_pr.Apiserver.Recovery.{WriterCall, set_header, write_header, write}

-- encoding/json on the bodies, and what the connection makes of a body that is sent.
pub record Wire : Type 0 where
  pub decode_container : String → Result String Container
  pub encode_container : Container → Result String String
  pub encode_container_list : ContainerList → Result String String
  pub encode_health : Health → Result String String
  pub encode_error : Error → Result String String
  pub send : String → Result String (Unit {0})

-- What a Visit method does to the writer, and its error.
abbrev pub Visit : Type 0
Visit = List WriterCall × Result String (Unit {0})

module _ (wire : Wire) where
  abbrev pub visit_body : String → ℕ → Result String String → Visit
  visit_body content_type status (err e) = ([], err e)
  visit_body content_type status (ok body) = (
    set_header "Content-Type" content_type ∷ write_header status ∷ write body ∷ [],
    wire.send body,
  )

  abbrev pub visit : {A : Type 0} → (A → Result String String) → Response A → Visit
  visit encode (success status a) = visit_body "application/json" status (encode a)
  visit encode (problem status e) =
      visit_body "application/problem+json" status (wire.encode_error e)

  unfoldable pub visit_list_containers_response : Response ContainerList → Visit
  visit_list_containers_response response = visit wire.encode_container_list response

  unfoldable pub visit_create_container_response : Response Container → Visit
  visit_create_container_response response = visit wire.encode_container response

  unfoldable pub visit_get_health_response : Response Health → Visit
  visit_get_health_response response = visit wire.encode_health response

  -- A deletion is answered without a body.
  unfoldable pub visit_delete_container_response : Response (Unit {0}) → Visit
  visit_delete_container_response (success status a) = (write_header status ∷ [], ok tt)
  visit_delete_container_response (problem status e) =
      visit_body "application/problem+json" status (wire.encode_error e)

  unfoldable pub visit_get_container_response : Response Container → Visit
  visit_get_container_response response = visit wire.encode_container response

-- The status codes of the response types of each operation.
unfoldable pub list_containers_statuses : List ℕ
list_containers_statuses = 200 ∷ 400 ∷ 401 ∷ 403 ∷ 500 ∷ []

unfoldable pub create_container_statuses : List ℕ
create_container_statuses = 201 ∷ 400 ∷ 401 ∷ 403 ∷ 409 ∷ 500 ∷ []

unfoldable pub delete_container_statuses : List ℕ
delete_container_statuses = 204 ∷ 401 ∷ 403 ∷ 404 ∷ 500 ∷ []

unfoldable pub get_container_statuses : List ℕ
get_container_statuses = 200 ∷ 401 ∷ 403 ∷ 404 ∷ 500 ∷ []
