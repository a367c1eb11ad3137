-- ===== src/Server/Sessions.antt =====
-- Requests served one after the other, from the HTTP server down to the cluster.
use k8s_container_service_pr.Base.{
  String, Bool, false, ◌&&◌, Option, none, List, [], ◌∷◌, ◌<>◌, ◌==◌, ◌≡◌, refl, sym, ap, ◌∙◌, All,
  Result, ok, inl, inr, eq_iff, Bool-cases, true,
}
use mathlib.Core.Path.{subst}
use k8s_container_service_pr.Base.Texts.Compare.{==-append}
use k8s_container_service_pr.Base.Int.{ℤ}
use k8s_container_service_pr.Api.{Time}
use k8s_container_service_pr.Api.Paths.{post_path}
use k8s_container_service_pr.Dcm.{LabelLib, LabelLaws}
use k8s_container_service_pr.Units.{QuantityLib}
use k8s_container_service_pr.Kube.{Client}
use k8s_container_service_pr.Kube.Laws.{View, ClientLaws}
use k8s_container_service_pr.Config.{Config}
use k8s_container_service_pr.Kubernetes.Convert.{K8sConfig}
use k8s_container_service_pr.Handlers.Handler.{containers_base_path}
use k8s_container_service_pr.Apiserver.Recovery.{request_timeout}
use k8s_container_service_pr.Apiserver.Router.{
  Request, SpecRouter, Parts, Served, serve, bad_request_handler,
}
use k8s_container_service_pr.Apiserver.Router.Laws.{
  rejection, has_empty_id, reply, outer, serve-reply,
}
use k8s_container_service_pr.Contract.{Abstract}
use k8s_container_service_pr.Contract.Refinement.{map_of, Sound}
use k8s_container_service_pr.Server.Binding.{ParamLib}
use k8s_container_service_pr.Server.Responses.{Wire}
use k8s_container_service_pr.Server.Routes.{Mux}
use k8s_container_service_pr.Server.Adapter.{ContainerHandler, provider_parts}
use k8s_container_service_pr.Server.Answers.{
  MuxLaws, Endpoint, listing, creation, health, deletion, reading, path_of, Reads, Asks, answered,
  is_segment,
}
use k8s_container_service_pr.Server.Reached.{provider_routes-answered, collection_path}
use k8s_container_service_pr.Server.Exchanges.{WireLaws, HttpAllowed, HttpAccepts}
use k8s_container_service_pr.Server.Exchanged.{provider_handler, IsServed, answered-Exchange}

-- The requests of a session, with what each comes to.
unfoldable pub serve_all :
    {W : Type 0} → Config → Parts W → List (Request × Endpoint) → W → List (Endpoint × Served W) × W
serve_all cfg parts [] w = ([], w)
serve_all cfg parts ((r, e) ∷ more) w =
    let v = serve cfg parts r w in
    let (exchanges, end) = serve_all cfg parts more v.after in ((e, v) ∷ exchanges, end)

empty_segment : (id : String) → is_segment id ≡ true → (id == "") ≡ false
empty_segment id h = elim (Bool-cases (id == "")) [
  | inr e ↦ e
  | inl e ↦ absurd (no_segment (subst (λ s. is_segment s ≡ true) ((eq_iff id "").0 e) h))
]
  where
    no_segment : is_segment "" ≡ true → ⊥
    no_segment z = cc

-- No endpoint has the path of the collection with a slash after it.
path_of-slash :
    (lib : ParamLib) (wire : Wire) (r : Request) (e : Endpoint)
    → Reads lib wire r e
    → (path_of e == (containers_base_path <> "/")) ≡ false
path_of-slash lib wire r (listing size token) q = collection_path ""
path_of-slash lib wire r (creation given body) q = collection_path ""
path_of-slash lib wire r health q = refl
path_of-slash lib wire r (deletion id) (segment, q) =
    ==-append containers_base_path ("/" <> id) ("/" <> "")
    ∙ ==-append "/" id ""
    ∙ empty_segment id segment
path_of-slash lib wire r (reading id) (segment, other, q) =
    ==-append containers_base_path ("/" <> id) ("/" <> "")
    ∙ ==-append "/" id ""
    ∙ empty_segment id segment

and_false : (b : Bool) → (b && false) ≡ false
and_false true = refl
and_false false = refl

module _ {W E Q : Type 0} (client : Client W E Q) (quantities : QuantityLib Q)
    (labels_lib : LabelLib) (k8s_config : K8sConfig) (text : E → String) (start_time : Time)
    (version : String) (now : W → Time) (new_uuid : W → String) (lib : ParamLib) (wire : Wire)
    (mux : Mux) (server_config : Config) (spec_router : Result String SpecRouter)
    (paths : Result String (List (String × Bool))) where
  abbrev pub handler : ContainerHandler W E Q
  handler =
      provider_handler client quantities labels_lib k8s_config text start_time version now new_uuid

  -- The HTTP server of the provider.
  abbrev pub provider : Parts W
  provider = provider_parts lib wire mux handler spec_router paths

  abbrev timeout : Option ℤ
  timeout = request_timeout server_config.server.request_timeout

  -- A request for an endpoint that the OpenAPI document accepts.
  abbrev pub IsFor : Request × Endpoint → Type 0
  IsFor (r, e) = Asks lib wire r e × (rejection provider r ≡ none)

  module _ (mux_laws : MuxLaws mux) (named : post_path paths ≡ ok containers_base_path) where
    has_empty_id-false :
        (r : Request) (e : Endpoint) → IsFor (r, e) → has_empty_id provider r ≡ false
    unfolding provider_parts
    has_empty_id-false r e ((m, p, q), accepted) =
        rw (has_empty_id, named, p, path_of-slash lib wire r e q) (and_false _)

    -- The server passes an accepted request on to its endpoint.
    serve-answered :
        (r : Request) (e : Endpoint) (w : W)
        → IsFor (r, e)
        → serve server_config provider r w ≡ outer r (answered wire handler e timeout r w)
    unfolding provider_parts
    serve-answered r e w (asks, accepted) =
        (serve-reply server_config provider r w).0
        ∙ rw (reply, accepted, has_empty_id-false r e (asks, accepted))
            (ap (outer r) (
              provider_routes-answered lib wire mux mux_laws handler bad_request_handler timeout r e
                w asks))

    module _ (view : View W Q) (laws : ClientLaws client labels_lib view)
        (label_laws : LabelLaws labels_lib) (wire_laws : WireLaws wire) where
      abbrev held : W → Abstract Q
      held = map_of client quantities labels_lib k8s_config view laws label_laws

      abbrev IsSound : W → Type 0
      IsSound = Sound client quantities labels_lib k8s_config view laws label_laws

      -- What each request of a session relies on, where its turn comes: the containers that it shows are
      -- encoded, and the rollback of a creation is answered.
      abbrev pub AllServed : List (Request × Endpoint) → W → Type 0
      AllServed [] w = Unit
      AllServed ((r, e) ∷ more) w =
          IsServed client quantities labels_lib k8s_config text start_time version now new_uuid view
            laws label_laws wire wire_laws timeout r w e
          × AllServed more (serve server_config provider r w).after

      -- A session of requests for endpoints, each accepted by the OpenAPI document, is a session of the
      -- abstract service on the map of containers that the cluster stands for, if it begins with a
      -- cluster whose deployments have distinct names and are of distinct instances: every status, the
      -- body of every container that is read and every change of the map is one that the service
      -- allows. The cluster is sound again at the end. The containers that are shown are encoded, what
      -- is sent is taken, and a creation that has to take back its deployment is answered when it
      -- deletes it.
      pub serve_all-HttpAccepts :
          (requests : List (Request × Endpoint)) (w : W)
          → All IsFor requests
          → AllServed requests w
          → IsSound w
          → let (exchanges, v) = serve_all server_config provider requests w in
            HttpAccepts client quantities labels_lib k8s_config wire (held w) exchanges (held v)
            × IsSound v
      unfolding serve_all
      serve_all-HttpAccepts [] w asks served sound = ((λ i. refl), sound)
      serve_all-HttpAccepts ((r, e) ∷ more) w (ask, asks) (is_served, served) sound =
          let v = serve server_config provider r w in
          let (allowed, next) =
            subst
              (λ (v : Served W).
                HttpAllowed client quantities labels_lib k8s_config wire (held w) (held v.after) e v
                × IsSound v.after)
              (sym (serve-answered r e w ask))
              (answered-Exchange client quantities labels_lib k8s_config text start_time version now
                new_uuid view laws label_laws wire wire_laws timeout r w sound e is_served) in
          let (rest, end) = serve_all-HttpAccepts more v.after asks served next in
          ((held v.after, allowed, rest), end)
