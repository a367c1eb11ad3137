-- ===== src/Server/Routes.antt =====
-- HandlerWithOptions: the routes of the operations.
use k8s_container_service_pr.Base.{String, Option, none, some, List, [], ◌∷◌, ◌<>◌}
use k8s_container_service_pr.Apiserver.Recovery.{HandlerRun}
use k8s_container_service_pr.Apiserver.Router.{Request}
use k8s_container_service_pr.Server.{HttpHandler, Middleware, ErrorHandler, ServerInterface}
use k8s_container_service_pr.Server.Binding
use k8s_container_service_pr.Server.Binding.{ParamLib, ServerInterfaceWrapper}

-- The methods of the wrapper.
pub data Operation : Type 0 where
  list_containers create_container get_health delete_container get_container : Operation

pub record Route : Type 0 where
  pub method : String
  pub pattern : String
  pub operation : Operation

-- The chi router: what it finds for a method and a path in routes that were added in this order, with
-- the parameters of the path, and how it answers where it finds nothing.
pub record Mux : Type 0 where
  pub find : List Route → String → String → Option (Operation × List (String × String))
  pub not_found : List Route → Request → HandlerRun

unfoldable pub routes : String → List Route
routes base_url =
    record {
      method = "GET";
      pattern = base_url <> "/api/v1alpha1/containers";
      operation = list_containers;
    }
    ∷ record {
      method = "POST";
      pattern = base_url <> "/api/v1alpha1/containers";
      operation = create_container;
    }
    ∷ record {
      method = "GET";
      pattern = base_url <> "/api/v1alpha1/containers/health";
      operation = get_health;
    }
    ∷ record {
      method = "DELETE";
      pattern = base_url <> "/api/v1alpha1/containers/{container_id}";
      operation = delete_container;
    }
    ∷ record {
      method = "GET";
      pattern = base_url <> "/api/v1alpha1/containers/{container_id}";
      operation = get_container;
    }
    ∷ []

-- ChiServerOptions, with the router and the error handler given.
pub record ChiServerOptions (W : Type 0) : Type 0 where
  pub base_url : String
  pub base_router : Mux
  pub middlewares : List (Middleware W)
  pub error_handler_func : ErrorHandler

module _ {W : Type 0} (lib : ParamLib) where
  abbrev pub run_operation :
      ServerInterfaceWrapper W → Operation → List (String × String) → HttpHandler W
  run_operation siw list_containers params = Binding.list_containers lib siw
  run_operation siw create_container params = Binding.create_container lib siw
  run_operation siw get_health params = Binding.get_health lib siw
  run_operation siw delete_container params = Binding.delete_container lib siw params
  run_operation siw get_container params = Binding.get_container lib siw params

  abbrev pub dispatched :
      ServerInterfaceWrapper W
      → HandlerRun
      → Option (Operation × List (String × String))
      → HttpHandler W
  dispatched siw otherwise none timeout r w = (otherwise, w)
  dispatched siw otherwise (some (operation, params)) timeout r w =
      run_operation siw operation params timeout r w

  abbrev pub wrapper : ServerInterface W → ChiServerOptions W → ServerInterfaceWrapper W
  wrapper si options = record {
    handler = si;
    handler_middlewares = options.middlewares;
    error_handler_func = options.error_handler_func;
  }

  -- HandlerWithOptions
  unfoldable pub handler_with_options : ServerInterface W → ChiServerOptions W → HttpHandler W
  unfolding routes
  handler_with_options si options timeout r w =
      let table = routes options.base_url in
      dispatched (wrapper si options) (options.base_router.not_found table r)
        (options.base_router.find table r.method r.path) timeout r w
