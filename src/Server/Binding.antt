-- ===== src/Server/Binding.antt =====
-- ServerInterfaceWrapper: the parameters of an operation, read from the request.
use k8s_container_service_pr.Base.{String, Option, List, [], ◌∷◌, Result, ok, err, lookup, or_empty}
use k8s_container_service_pr.Base.Int.{ℤ}
use k8s_container_service_pr.Apiserver.Scrub.{binding_error, invalid_param_format}
use k8s_container_service_pr.Server.{HttpHandler, Middleware, ErrorHandler, ServerInterface}

-- The runtime library: an optional query parameter from the raw query and its name, as an int32 or as
-- a text, and a path parameter from its name and its value.
pub record ParamLib : Type 0 where
  pub bind_query_int32 : String → String → Result String (Option ℤ)
  pub bind_query_string : String → String → Result String (Option String)
  pub bind_path_string : String → String → Result String String

-- The middlewares, the last one outermost.
unfoldable pub with_middlewares : {W : Type 0} → List (Middleware W) → HttpHandler W → HttpHandler W
with_middlewares [] handler = handler
with_middlewares (m ∷ ms) handler = with_middlewares ms (m handler)

pub record ServerInterfaceWrapper (W : Type 0) : Type 0 where
  pub handler : ServerInterface W
  pub handler_middlewares : List (Middleware W)
  pub error_handler_func : ErrorHandler

module _ {W : Type 0} (lib : ParamLib) (siw : ServerInterfaceWrapper W) where
  -- `if err != nil` after a binding, and what comes after it.
  abbrev pub bound : {A : Type 0} → String → Result String A → (A → HttpHandler W) → HttpHandler W
  bound name (ok a) next timeout r w = next a timeout r w
  bound name (err e) next timeout r w =
      (siw.error_handler_func r (binding_error invalid_param_format name), w)

  unfoldable pub list_containers : HttpHandler W
  unfolding with_middlewares
  list_containers timeout r w =
      bound "max_page_size" (lib.bind_query_int32 "max_page_size" r.query)
        (λ max_page_size.
          bound "page_token" (lib.bind_query_string "page_token" r.query) (λ page_token.
            with_middlewares siw.handler_middlewares (
              siw.handler.list_containers
                (record { max_page_size = max_page_size; page_token = page_token }))))
        timeout r w

  unfoldable pub create_container : HttpHandler W
  unfolding with_middlewares
  create_container timeout r w =
      bound "id" (lib.bind_query_string "id" r.query)
        (λ id.
          with_middlewares siw.handler_middlewares
            (siw.handler.create_container (record { id = id })))
        timeout r w

  unfoldable pub get_health : HttpHandler W
  unfolding with_middlewares
  get_health timeout r w =
      with_middlewares siw.handler_middlewares siw.handler.get_health timeout r w

  -- The path parameter, from those that the router has found.
  abbrev pub container_id_param : List (String × String) → Result String String
  container_id_param params =
      lib.bind_path_string "container_id" (or_empty (lookup "container_id" params))

  unfoldable pub delete_container : List (String × String) → HttpHandler W
  unfolding with_middlewares lookup
  delete_container params timeout r w =
      bound "container_id" (container_id_param params)
        (λ container_id.
          with_middlewares siw.handler_middlewares (siw.handler.delete_container container_id))
        timeout r w

  unfoldable pub get_container : List (String × String) → HttpHandler W
  unfolding with_middlewares lookup
  get_container params timeout r w =
      bound "container_id" (container_id_param params)
        (λ container_id.
          with_middlewares siw.handler_middlewares (siw.handler.get_container container_id))
        timeout r w
