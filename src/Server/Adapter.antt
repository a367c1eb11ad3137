-- ===== src/Server/Adapter.antt =====
-- The handlers of internal/handlers/container as a strict server, and run of
-- cmd/k8s-container-service-provider/main.go up to the HTTP server made of them.
use k8s_container_service_pr.Base.{String, Bool, Option, some, List, [], Result}
use k8s_container_service_pr.Base.Int.{ℤ}
use k8s_container_service_pr.Api.{Time}
use k8s_container_service_pr.Units.{QuantityLib}
use k8s_container_service_pr.Handlers.Errors.{Response, Outcome, returned, panicked}
use k8s_container_service_pr.Handlers.Handler
use k8s_container_service_pr.Handlers.Handler.{Repository}
use k8s_container_service_pr.Apiserver.Recovery.{WriterCall, response_error}
use k8s_container_service_pr.Apiserver.Router.{
  Request, SpecRouter, Parts, request_instance, bad_request_handler,
}
use k8s_container_service_pr.Server.{HttpHandler, ErrorHandler, ServerInterface}
use k8s_container_service_pr.Server.Binding.{ParamLib}
use k8s_container_service_pr.Server.Responses.{Wire}
use k8s_container_service_pr.Server.Strict.{
  StrictResult, responded, StrictServerInterface, new_strict_handler_with_options,
}
use k8s_container_service_pr.Server.Routes.{Mux, handler_with_options}

-- Handler of NewHandler. The calls of the repository get the timeout of the context; `now` is
-- time.Now and `new_uuid` is uuid.New, read from the state.
pub record ContainerHandler (W E Q : Type 0) : Type 0 where
  pub quantities : QuantityLib Q
  pub text : E → String
  pub store : Option ℤ → Repository W E
  pub start_time : Time
  pub version : String
  pub now : W → Time
  pub new_uuid : W → String

abbrev pub outcome_responded : {A : Type 0} → Outcome (Response A) → Outcome (StrictResult A)
outcome_responded (returned response) = returned (responded response)
outcome_responded (panicked p) = panicked p

abbrev pub answering : {W A : Type 0} → Response A × W → Outcome (StrictResult A) × W
answering (response, w) = (returned (responded response), w)

module _ {W E Q : Type 0} (h : ContainerHandler W E Q) where
  -- The methods of Handler; none returns an error.
  unfoldable pub strict_server : StrictServerInterface W
  unfolding Handler.list_containers Handler.create_container Handler.get_health
      Handler.delete_container Handler.get_container
  strict_server = record {
    list_containers = λ params timeout w. answering (
        Handler.list_containers h.quantities h.text (h.store timeout) params.max_page_size
          params.page_token w);
    create_container = λ params body timeout w.
        let (outcome, v) =
          Handler.create_container h.quantities h.text (h.store timeout) params.id (h.new_uuid w)
            body.spec w in
        (outcome_responded outcome, v);
    get_health = λ timeout w.
        answering (Handler.get_health (some (h.store timeout)) h.start_time h.version (h.now w) w);
    delete_container = λ container_id timeout w.
        answering (Handler.delete_container h.quantities h.text (h.store timeout) container_id w);
    get_container = λ container_id timeout w.
        answering (Handler.get_container h.quantities h.text (h.store timeout) container_id w);
  }

-- NewResponseErrorHandler, which tells the client nothing of the error.
unfoldable pub new_response_error_handler : Request → String → List WriterCall
unfolding response_error request_instance
new_response_error_handler r e = response_error (request_instance (some r))

-- NewRequestErrorHandler
unfoldable pub new_request_error_handler : ErrorHandler
unfolding bad_request_handler
new_request_error_handler = bad_request_handler

module _ {W E Q : Type 0} (lib : ParamLib) (wire : Wire) (mux : Mux)
    (h : ContainerHandler W E Q) where
  unfoldable pub strict_adapter : ServerInterface W
  unfolding new_strict_handler_with_options strict_server new_response_error_handler
      new_request_error_handler
  strict_adapter = new_strict_handler_with_options wire (strict_server h) (record {
    request_error_handler_func = new_request_error_handler;
    response_error_handler_func = new_response_error_handler;
  })

  -- The routes of the server, for the error handler that New passes on.
  unfoldable pub provider_routes : ErrorHandler → HttpHandler W
  unfolding handler_with_options strict_adapter
  provider_routes error_handler = handler_with_options lib strict_adapter (record {
    base_url = "";
    base_router = mux;
    middlewares = [];
    error_handler_func = error_handler;
  })

  -- What New puts together, with these routes.
  unfoldable pub provider_parts :
      Result String SpecRouter → Result String (List (String × Bool)) → Parts W
  unfolding provider_routes
  provider_parts spec_router paths = record {
    spec_router = spec_router;
    paths = paths;
    routes = provider_routes;
  }
