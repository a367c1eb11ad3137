-- ===== src/Server/Reached.antt =====
-- A request for an endpoint reaches the operation of that endpoint.
use k8s_container_service_pr.Base.{
  String, false, Bool-cases, inl, inr, eq_iff, some, List, [], ◌∷◌, ◌<>◌, ◌==◌, ◌≡◌, refl, ◌∙◌,
  Option,
}
use text.Mathlib.TextLemmas.{append-nil, cons-append, nil≢cons}
use k8s_container_service_pr.Base.Texts.Compare.{==-append}
use k8s_container_service_pr.Base.Int.{ℤ}
use k8s_container_service_pr.Handlers.Handler.{containers_base_path}
use k8s_container_service_pr.Apiserver.Router.{Request}
use k8s_container_service_pr.Server.{ErrorHandler}
use k8s_container_service_pr.Server.Binding
use k8s_container_service_pr.Server.Binding.{ParamLib, with_middlewares}
use k8s_container_service_pr.Server.Responses.{Wire}
use k8s_container_service_pr.Server.Strict
use k8s_container_service_pr.Server.Routes
use k8s_container_service_pr.Server.Routes.{
  Operation, Mux, Route, routes, handler_with_options, dispatched,
}
use k8s_container_service_pr.Server.Adapter.{ContainerHandler, provider_routes, strict_adapter}
use k8s_container_service_pr.Server.Answers.{
  MuxLaws, Endpoint, listing, creation, health, deletion, reading, method_of, path_of, Reads, Asks,
  answered,
}

-- What the router finds for an endpoint.
abbrev target : Endpoint → Operation × List (String × String)
target (listing size token) = (Operation.list_containers, [])
target (creation id body) = (Operation.create_container, [])
target health = (Operation.get_health, [])
target (deletion id) = (Operation.delete_container, ("container_id", id) ∷ [])
target (reading id) = (Operation.get_container, ("container_id", id) ∷ [])

-- The collection is not one of its members, and a member is the health check only by its name.
pub collection_path :
    (id : String) → (containers_base_path == (containers_base_path <> ("/" <> id))) ≡ false
collection_path id =
    rw (append-nil containers_base_path) at
      (==-append containers_base_path "" ("/" <> id) ∙ empty id)
  where
    nil≢slash : (t : String) → "" ≡ "/" <> t → ⊥
    nil≢slash t h = nil≢cons (h ∙ cons-append _ "" t)

    empty : (t : String) → ("" == ("/" <> t)) ≡ false
    empty t = elim (Bool-cases ("" == ("/" <> t))) [
      | inl e ↦ absurd (nil≢slash t ((eq_iff "" ("/" <> t)).0 e))
      | inr e ↦ e
    ]

health_path :
    (id : String)
    → (containers_base_path <> "/health" == (containers_base_path <> ("/" <> id)))
      ≡ ("health" == id)
health_path id = ==-append containers_base_path "/health" ("/" <> id) ∙ ==-append "/" "health" id

module _ {W E Q : Type 0} (lib : ParamLib) (wire : Wire) (mux : Mux) (laws : MuxLaws mux)
    (h : ContainerHandler W E Q) where
  find-target :
      (r : Request) (e : Endpoint)
      → Reads lib wire r e
      → mux.find (routes "") (method_of e) (path_of e) ≡ some (target e)
  unfolding routes
  find-target r (listing size token) q =
      laws.plain (routes "") "GET" containers_base_path Operation.list_containers refl
  find-target r (creation id body) q =
      laws.plain (routes "") "POST" containers_base_path Operation.create_container refl
  find-target r health q =
      laws.plain (routes "") "GET" (containers_base_path <> "/health") Operation.get_health refl
  find-target r (deletion id) (segment, q) =
      laws.param (routes "") "DELETE" containers_base_path "container_id" id
        Operation.delete_container refl refl refl segment refl
  find-target r (reading id) (segment, other, q) =
      laws.param (routes "") "GET" containers_base_path "container_id" id Operation.get_container
        refl refl refl segment (rw (health_path id, other, collection_path id))

  -- The route that is found is run with the parameters of the request.
  run-target :
      (on_error : ErrorHandler) (timeout : Option ℤ) (r : Request) (e : Endpoint) (w : W)
      → Reads lib wire r e
      → Routes.run_operation lib
          (record {
            handler = strict_adapter lib wire mux h;
            handler_middlewares = [];
            error_handler_func = on_error;
          })
          (target e).0
          (target e).1
          timeout
          r
          w
        ≡ answered wire h e timeout r w
  unfolding Binding.list_containers Binding.create_container Binding.get_health
      Binding.delete_container Binding.get_container strict_adapter Strict.list_containers
      Strict.create_container Strict.get_health Strict.delete_container Strict.get_container
  run-target on_error timeout r (listing size token) w (p, q) = rw (p, q)
  run-target on_error timeout r (creation id body) w (p, q) = rw (p, q)
  run-target on_error timeout r health w q = refl
  run-target on_error timeout r (deletion id) w (segment, q) = rw q
  run-target on_error timeout r (reading id) w (segment, other, q) = rw q

  -- A request for an endpoint, with the parameters and the body of the endpoint, is answered by that
  -- operation's handler with these parameters, for every error handler and timeout: a read of the
  -- reserved identifier is the health check, and any other identifier that is one segment of a path
  -- is read or deleted itself.
  pub provider_routes-answered :
      (on_error : ErrorHandler) (timeout : Option ℤ) (r : Request) (e : Endpoint) (w : W)
      → Asks lib wire r e
      → provider_routes lib wire mux h on_error timeout r w ≡ answered wire h e timeout r w
  unfolding provider_routes handler_with_options
  provider_routes-answered on_error timeout r e w (m, p, q) =
      let found : mux.find (routes "") r.method r.path ≡ some (target e) =
        rw (m, p) (find-target r e q) in
      rw found (run-target on_error timeout r e w q)
