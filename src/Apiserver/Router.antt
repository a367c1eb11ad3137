-- ===== src/Apiserver/Router.antt =====
-- New of internal/apiserver/server.go: the order of the middleware and the routes of the server.
pub mod Laws
use k8s_container_service_pr.Base.{
  ℕ, String, Bool, true, false, ◌&&◌, ◌||◌, Option, none, some, List, [], ◌∷◌, if◌then◌else◌, ◌==◌,
  ◌<>◌, Result, ok, err,
}
use k8s_container_service_pr.Base.Int.{ℤ}
use k8s_container_service_pr.Api.Enums.{invalid_argument}
use k8s_container_service_pr.Api.Paths.{post_path}
use k8s_container_service_pr.Handlers.Errors.{invalid_argument_title}
use k8s_container_service_pr.Config.{Config}
use k8s_container_service_pr.Apiserver.Scrub.{RequestFailure}
use k8s_container_service_pr.Apiserver.Recovery.{
  HandlerRun, WriterCall, returns, abort, panics, new_recording_writer, writer_calls,
  write_response, bad_request, recovery_middleware, logged_status, open_api_validation_middleware,
  request_timeout,
}

-- What the server reads of a request; `uri` is the path with the query, as RequestURI of its URL.
pub record Request : Type 0 where
  pub method : String
  pub path : String
  pub uri : String
  pub query : String  -- URL.RawQuery
  pub body : String

-- requestInstance; `none` is a nil request.
unfoldable pub request_instance : Option Request → Option String
request_instance none = none
request_instance (some r) = some r.uri

-- newBadRequestHandler, as a handler of its own.
unfoldable pub bad_request_handler : Request → RequestFailure → HandlerRun
unfolding bad_request request_instance
bad_request_handler r failure = record {
  calls = bad_request failure (request_instance (some r));
  ending = returns;
}

-- emptyIDHandler
unfoldable pub empty_id_handler : Request → HandlerRun
unfolding write_response request_instance
empty_id_handler r = record {
  calls =
      write_response 400 invalid_argument invalid_argument_title
        "container_id is required and cannot be empty" (request_instance (some r));
  ending = returns;
}

-- What the OpenAPI library makes of the embedded document: a router, if the document and the router
-- are loaded. On a request it finds a route or not, and validation finds a failure or not.
pub record SpecRouter : Type 0 where
  pub finds_route : Request → Bool
  pub validate_request : Request → Option RequestFailure

-- The document's router, its paths, and the generated routes, which get the handler of binding
-- errors, the timeout of the context, the request and the state of what lies behind the handlers. Each
-- may fail to load but the last.
pub record Parts (W : Type 0) : Type 0 where
  pub spec_router : Result String SpecRouter
  pub paths : Result String (List (String × Bool))
  pub routes : (Request → RequestFailure → HandlerRun) → Option ℤ → Request → W → HandlerRun × W

-- The router: the guards for an empty container_id, and the generated routes.
unfoldable pub dispatch : {W : Type 0} → Parts W → Option ℤ → Request → W → HandlerRun × W
unfolding empty_id_handler bad_request_handler post_path
dispatch parts timeout r w = elim (post_path parts.paths) [
  | err e ↦ parts.routes bad_request_handler timeout r w
  | ok post ↦
      if (r.method == "GET" || r.method == "DELETE") && r.path == (post <> "/")
      then (empty_id_handler r, w)
      else parts.routes bad_request_handler timeout r w
]

-- The validation middleware, if it is in use.
unfoldable pub validated :
    {W : Type 0} → Parts W → Request → (W → HandlerRun × W) → W → HandlerRun × W
unfolding open_api_validation_middleware request_instance
validated parts r next w = elim parts.spec_router [
  | err e ↦ next w
  | ok spec ↦
      open_api_validation_middleware (spec.finds_route r) (spec.validate_request r)
        (request_instance (some r)) next w
]

-- What a request comes to: what reaches the server's writer, how the handler ends, and the status
-- that is logged, if any, with the state after it.
pub record Served (W : Type 0) : Type 0 where
  pub run : HandlerRun
  pub logged : Option ℕ
  pub after : W

-- requestLoggingMiddleware passes on what the recording writer gets.
unfoldable pub logging_middleware : {W : Type 0} → HandlerRun × W → Served W
unfolding logged_status writer_calls
logging_middleware (next, w) = record {
  run = record {
    calls = (writer_calls next.calls new_recording_writer).passed_on;
    ending = next.ending;
  };
  logged = logged_status next;
  after = w;
}

-- New: recovery round logging round the timeout round validation round the router.
unfoldable pub serve : {W : Type 0} → Config → Parts W → Request → W → Served W
unfolding recovery_middleware logging_middleware request_timeout validated dispatch request_instance
serve cfg parts r w =
    let timeout = request_timeout cfg.server.request_timeout in
    let logged = logging_middleware (validated parts r (dispatch parts timeout r) w) in
    record logged { run = recovery_middleware (request_instance (some r)) logged.run }
