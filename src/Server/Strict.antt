-- ===== src/Server/Strict.antt =====
-- strictHandler: an operation on typed requests and responses as one on a request and a writer.
use k8s_container_service_pr.Base.{String, Option, List, [], ◌++◌, ◌<>◌, Result, ok, err}
use k8s_container_service_pr.Base.Int.{ℤ}
use k8s_container_service_pr.Api.{Container, ContainerList, Health}
use k8s_container_service_pr.Handlers.Errors.{Response, Outcome, returned, panicked}
use k8s_container_service_pr.Apiserver.Scrub.{other_error}
use k8s_container_service_pr.Apiserver.Recovery.{HandlerRun, WriterCall, returns, panics}
use k8s_container_service_pr.Apiserver.Router.{Request}
use k8s_container_service_pr.Server.{
  HttpHandler, ErrorHandler, ListContainersParams, CreateContainerParams, ServerInterface,
}
use k8s_container_service_pr.Server.Responses.{
  Wire, Visit, visit_list_containers_response, visit_create_container_response,
  visit_get_health_response, visit_delete_container_response, visit_get_container_response,
}

-- What a strict operation returns: an error, a response of its type, nil, or a value of another type,
-- by its type's name.
pub data StrictResult (A : Type 0) : Type 0 where
  failed : String → StrictResult A
  responded : Response A → StrictResult A
  no_response : StrictResult A
  unexpected : String → StrictResult A

-- An operation, with the timeout of its context.
abbrev pub StrictOperation : Type 0 → Type 0 → Type 0
StrictOperation W A = Option ℤ → W → Outcome (StrictResult A) × W

-- StrictServerInterface
pub record StrictServerInterface (W : Type 0) : Type 0 where
  pub list_containers : ListContainersParams → StrictOperation W ContainerList
  pub create_container : CreateContainerParams → Container → StrictOperation W Container
  pub get_health : StrictOperation W Health
  pub delete_container : String → StrictOperation W (Unit {0})
  pub get_container : String → StrictOperation W Container

-- StrictHTTPServerOptions. The error of a response is passed on as its text.
pub record StrictHttpServerOptions : Type 0 where
  pub request_error_handler_func : ErrorHandler
  pub response_error_handler_func : Request → String → List WriterCall

module _ {W : Type 0} (wire : Wire) (ssi : StrictServerInterface W)
    (options : StrictHttpServerOptions) where
  abbrev pub on_response_error : Request → String → HandlerRun
  on_response_error r e = record {
    calls = options.response_error_handler_func r e;
    ending = returns;
  }

  abbrev pub visited : Request → Visit → HandlerRun
  visited r (calls, ok a) = record { calls = calls; ending = returns }
  visited r (calls, err e) = record {
    calls = calls ++ options.response_error_handler_func r e;
    ending = returns;
  }

  -- The end of each method: the error, the response, a value of an unexpected type, or nothing.
  abbrev pub answer :
      {A : Type 0} → (Response A → Visit) → Request → Outcome (StrictResult A) → HandlerRun
  answer visit r (panicked p) = record { calls = []; ending = panics p }
  answer visit r (returned (failed e)) = on_response_error r e
  answer visit r (returned (responded response)) = visited r (visit response)
  answer visit r (returned no_response) = record { calls = []; ending = returns }
  answer visit r (returned (unexpected type_name)) =
      on_response_error r ("unexpected response type: " <> type_name)

  unfoldable pub list_containers : ListContainersParams → HttpHandler W
  unfolding visit_list_containers_response
  list_containers params timeout r w =
      let (response, v) = ssi.list_containers params timeout w in
      (answer (visit_list_containers_response wire) r response, v)

  abbrev create_decoded : CreateContainerParams → Result String Container → HttpHandler W
  create_decoded params (err e) timeout r w =
      (options.request_error_handler_func r (other_error ("can't decode JSON body: " <> e)), w)
  create_decoded params (ok body) timeout r w =
      let (response, v) = ssi.create_container params body timeout w in
      (answer (visit_create_container_response wire) r response, v)

  unfoldable pub create_container : CreateContainerParams → HttpHandler W
  unfolding visit_create_container_response
  create_container params timeout r w =
      create_decoded params (wire.decode_container r.body) timeout r w

  unfoldable pub get_health : HttpHandler W
  unfolding visit_get_health_response
  get_health timeout r w =
      let (response, v) = ssi.get_health timeout w in
      (answer (visit_get_health_response wire) r response, v)

  unfoldable pub delete_container : String → HttpHandler W
  unfolding visit_delete_container_response
  delete_container container_id timeout r w =
      let (response, v) = ssi.delete_container container_id timeout w in
      (answer (visit_delete_container_response wire) r response, v)

  unfoldable pub get_container : String → HttpHandler W
  unfolding visit_get_container_response
  get_container container_id timeout r w =
      let (response, v) = ssi.get_container container_id timeout w in
      (answer (visit_get_container_response wire) r response, v)

  -- NewStrictHandlerWithOptions, without middlewares.
  unfoldable pub new_strict_handler_with_options : ServerInterface W
  unfolding list_containers create_container get_health delete_container get_container
  new_strict_handler_with_options = record {
    list_containers = list_containers;
    create_container = create_container;
    get_health = get_health;
    delete_container = delete_container;
    get_container = get_container;
  }
