-- ===== src/Examples/Sessions.antt =====
-- Requests to the whole provider, over a cluster in memory.
use k8s_container_service_pr.Base.{
  ℕ, String, true, none, some, List, [], ◌∷◌, ◌≡◌, refl, ok, err, ◌==◌, not, ◌&&◌, ◌||◌, Result,
  if◌then◌else◌, arith,
}
use k8s_container_service_pr.Base.Int.{pos}
use k8s_container_service_pr.Api.{Container}
use k8s_container_service_pr.Api.Paths.{post_path}
use k8s_container_service_pr.Kube.Memory.{Cluster, memory_client, memory_view}
use k8s_container_service_pr.Kube.Memory.Selectors.{memory_labels, memory_label_laws}
use k8s_container_service_pr.Kube.Memory.Lawful.{memory_laws}
use k8s_container_service_pr.Kubernetes.Store.Unique.{IsUnique}
use k8s_container_service_pr.Contract
use k8s_container_service_pr.Contract.Refinement.{map_of, Sound}
use k8s_container_service_pr.Apiserver.Router.{Request, SpecRouter, Parts, Served}
use k8s_container_service_pr.Apiserver.Scrub.{other_error}
use k8s_container_service_pr.Server.Binding.{ParamLib}
use k8s_container_service_pr.Server.Responses.{Wire}
use k8s_container_service_pr.Server.PlainMux.{plain_mux, plain_mux-MuxLaws}
use k8s_container_service_pr.Server.Adapter.{provider_parts}
use k8s_container_service_pr.Server.Answers.{Endpoint, listing, creation, health, deletion, reading}
use k8s_container_service_pr.Server.Exchanges.{WireLaws, Encodes, OutcomeEncodes, HttpAccepts}
use k8s_container_service_pr.Handlers.Errors.{
  Response, success, problem, Outcome, returned, panicked,
}
use k8s_container_service_pr.Handlers.Handler.{containers_base_path, or_generated}
use k8s_container_service_pr.Examples.Store.{memory-RollsBack}
use k8s_container_service_pr.Server.Sessions.{provider, AllServed, serve_all, serve_all-HttpAccepts}
use k8s_container_service_pr.Examples.Fixtures.{
  text_quantities, node_port_config, web_spec, empty_cluster, provider_config,
}

-- Queries without parameters, but for one with a page size and one with an identifier.
abbrev params : ParamLib
params = record {
  bind_query_int32 =
      λ name query. if query == "max_page_size=10" then ok (some (pos 10)) else ok none;
  bind_query_string = λ name query.
      if query == "id=c1" then (if name == "id" then ok (some "c1") else ok none) else ok none;
  bind_path_string = λ name value. ok value;
}

abbrev web : Container
web = record {
  create_time = none;
  id = none;
  path = none;
  service = none;
  spec = web_spec;
  status = none;
  update_time = none;
}

abbrev wire : Wire
wire = record {
  decode_container = λ body. if body == "web" then ok web else err "unexpected end of JSON input";
  encode_container = λ c. ok c.spec.metadata.name;
  encode_container_list = λ l. ok "list";
  encode_health = λ h. ok h.status;
  encode_error = λ e. ok e.title;
  send = λ body. ok tt;
}

wire_laws : WireLaws wire
wire_laws = record {
  encodes_health = λ h. (h.status, refl);
  encodes_error = λ e. (e.title, refl);
  sends = λ body. refl;
}

abbrev get_at : String → Request
get_at path = record { method = "GET"; path = path; uri = path; query = ""; body = "" }

abbrev requests : List (Request × Endpoint)
requests =
    (
      record {
        method = "POST";
        path = "/api/v1alpha1/containers";
        uri = "/api/v1alpha1/containers?id=c1";
        query = "id=c1";
        body = "web";
      },
      creation (some "c1") web,
    )
    ∷ (get_at "/api/v1alpha1/containers/c1", reading "c1")
    ∷ (get_at "/api/v1alpha1/containers/health", health)
    ∷ (get_at "/api/v1alpha1/containers", listing none none)
    ∷ (record (get_at "/api/v1alpha1/containers/c1") { method = "DELETE" }, deletion "c1")
    ∷ (get_at "/api/v1alpha1/containers/c1", reading "c1")
    ∷ []

-- A document that has the path of the containers, and one body for them.
abbrev document : SpecRouter
document = record {
  finds_route = λ r.
      r.path == "/api/v1alpha1/containers"
      || r.path == "/api/v1alpha1/containers/health"
      || r.path == "/api/v1alpha1/containers/c1";
  validate_request = λ r.
      if r.method == "POST" && not (r.body == "web")
      then some (other_error "request body has an error")
      else none;
}

abbrev same_text : String → String
same_text s = s

abbrev at_one : Cluster String → ℕ
at_one w = 1

abbrev new_uuid : Cluster String → String
new_uuid w = "u1"

abbrev running : Parts (Cluster String)
running =
    provider memory_client text_quantities memory_labels node_port_config same_text 0 "1.0" at_one
      new_uuid params wire plain_mux provider_config (ok document)
      (ok (("/api/v1alpha1/containers", true) ∷ []))

abbrev session : List (Endpoint × Served (Cluster String)) × Cluster String
session = serve_all provider_config running requests (empty_cluster [])

abbrev containers : Cluster String → Contract.Abstract String
containers =
    map_of memory_client text_quantities memory_labels node_port_config memory_view memory_laws
      memory_label_laws

abbrev IsSound : Cluster String → Type 0
IsSound =
    Sound memory_client text_quantities memory_labels node_port_config memory_view memory_laws
      memory_label_laws

start-IsSound : IsSound (empty_cluster [])
unfolding IsUnique
start-IsSound = (λ id. omega arith, tt)

collection : post_path (ok (("/api/v1alpha1/containers", true) ∷ [])) ≡ ok containers_base_path
unfolding post_path
collection = refl

encodes :
    {A : Type 0} (encode : A → Result String String)
    → ((a : A) → (b : String) × (encode a ≡ ok b))
    → (response : Response A) → Encodes encode response
encodes encode total (success status a) = total a
encodes encode total (problem status p) = tt

shows : (c : Container) → (b : String) × (wire.encode_container c ≡ ok b)
shows c = (c.spec.metadata.name, refl)

outcome_encodes : (o : Outcome (Response Container)) → OutcomeEncodes wire.encode_container o
outcome_encodes (returned response) = encodes wire.encode_container shows response
outcome_encodes (panicked p) = tt

all_served :
    (rs : List (Request × Endpoint)) (w : Cluster String)
    → AllServed memory_client text_quantities memory_labels node_port_config same_text 0 "1.0"
        at_one new_uuid params wire plain_mux provider_config
        (ok document)
        (ok (("/api/v1alpha1/containers", true) ∷ []))
        plain_mux-MuxLaws
        collection
        memory_view
        memory_laws
        memory_label_laws
        wire_laws
        rs
        w
all_served [] w = tt
all_served ((r, listing size token) ∷ more) w =
    (encodes wire.encode_container_list (λ l. ("list", refl)) _, all_served more _)
all_served ((r, creation given body) ∷ more) w = (
  (outcome_encodes _, memory-RollsBack body.spec (or_generated given (new_uuid w)) w),
  all_served more _,
)
all_served ((r, health) ∷ more) w = (tt, all_served more _)
all_served ((r, deletion id) ∷ more) w = (tt, all_served more _)
all_served ((r, reading id) ∷ more) w = (encodes wire.encode_container shows _, all_served more _)

serve_all-HttpAccepts_example :
    HttpAccepts memory_client text_quantities memory_labels node_port_config wire
      (containers (empty_cluster []))
      session.0
      (containers session.1)
    × IsSound session.1
unfolding provider_parts
serve_all-HttpAccepts_example =
    serve_all-HttpAccepts memory_client text_quantities memory_labels node_port_config same_text 0
      "1.0" at_one new_uuid params wire plain_mux provider_config (ok document)
      (ok (("/api/v1alpha1/containers", true) ∷ [])) plain_mux-MuxLaws collection memory_view
      memory_laws memory_label_laws wire_laws requests (empty_cluster [])
      (
        ((refl, refl, (refl, refl)), refl),
        (
          ((refl, refl, (refl, refl, refl)), refl),
          (
            ((refl, refl, tt), refl),
            (
              ((refl, refl, (refl, refl)), refl),
              (((refl, refl, (refl, refl)), refl), (((refl, refl, (refl, refl, refl)), refl), tt)),
            ),
          ),
        ),
      )
      (all_served requests (empty_cluster [])) start-IsSound
