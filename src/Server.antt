-- ===== src/Server.antt =====
-- internal/api/server/server.gen.go, the server that is generated from the OpenAPI document: the
-- operations, and handlers that get the timeout of the request's context, the request and the state of
-- what lies behind them.
pub mod Binding
pub mod Responses
pub mod Strict
pub mod Typed
pub mod Routes
pub mod Adapter
pub mod Answers
pub mod PlainMux
pub mod Reached
pub mod Exchanges
pub mod Rendered
pub mod Allowed
pub mod Cases
pub mod Exchanged
pub mod Sessions
use k8s_container_service_pr.Base.{String, Bool, Option}
use k8s_container_service_pr.Base.Int.{ℤ}
use k8s_container_service_pr.Apiserver.Scrub.{RequestFailure}
use k8s_container_service_pr.Apiserver.Recovery.{HandlerRun}
use k8s_container_service_pr.Apiserver.Router.{Request}

abbrev pub HttpHandler : Type 0 → Type 0
HttpHandler W = Option ℤ → Request → W → HandlerRun × W

-- MiddlewareFunc
abbrev pub Middleware : Type 0 → Type 0
Middleware W = HttpHandler W → HttpHandler W

abbrev pub ErrorHandler : Type 0
ErrorHandler = Request → RequestFailure → HandlerRun

pub record ListContainersParams : Type 0 where
  pub max_page_size : Option ℤ
  pub page_token : Option String

pub record CreateContainerParams : Type 0 where
  pub id : Option String

-- ServerInterface
pub record ServerInterface (W : Type 0) : Type 0 where
  pub list_containers : ListContainersParams → HttpHandler W
  pub create_container : CreateContainerParams → HttpHandler W
  pub get_health : HttpHandler W
  pub delete_container : String → HttpHandler W
  pub get_container : String → HttpHandler W
