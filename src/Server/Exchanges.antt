-- ===== src/Server/Exchanges.antt =====
-- What one request does, as a client sees it, and as the map of containers sees it.
use k8s_container_service_pr.Base.{
  ℕ, String, Option, none, some, List, [], ◌∷◌, ◌≡◌, ◌≢◌, ◌⊎◌, ◌==◌, if◌then◌else◌, Result, ok,
}
use k8s_container_service_pr.Api.{Container, Error, Health}
use k8s_container_service_pr.Dcm.{LabelLib}
use k8s_container_service_pr.Units.{QuantityLib}
use k8s_container_service_pr.Kube.{Client}
use k8s_container_service_pr.Kubernetes.Convert.{K8sConfig}
use k8s_container_service_pr.Handlers.Errors.{
  Response, success, problem, Outcome, returned, panicked,
}
use k8s_container_service_pr.Apiserver.Recovery.{
  WriterCall, set_header, write_header, write, returns,
}
use k8s_container_service_pr.Apiserver.Router.{Served}
use k8s_container_service_pr.Contract.{Abstract, Stored, Unchanged, Describes, stored_from}
use k8s_container_service_pr.Server.Responses.{Wire}
use k8s_container_service_pr.Server.Answers.{Endpoint, listing, creation, health, deletion, reading}

-- A health report and a problem have only texts and numbers, which are encoded always, and the
-- connection takes what is sent.
pub record WireLaws (wire : Wire) : Type 0 where
  pub encodes_health : (s : Health) → (b : String) × (wire.encode_health s ≡ ok b)
  pub encodes_error : (e : Error) → (b : String) × (wire.encode_error e ≡ ok b)
  pub sends : (b : String) → wire.send b ≡ ok tt

-- The resource of a response, if it has one, is encoded.
abbrev pub Encodes : {A : Type 0} → (A → Result String String) → Response A → Type 0
Encodes encode (success status a) = (b : String) × (encode a ≡ ok b)
Encodes encode (problem status p) = Unit

abbrev pub OutcomeEncodes :
    {A : Type 0} → (A → Result String String) → Outcome (Response A) → Type 0
OutcomeEncodes encode (returned response) = Encodes encode response
OutcomeEncodes encode (panicked p) = Unit

-- The request is answered with a status, which is logged, and without a panic.
abbrev pub Sent : {W : Type 0} → ℕ → Served W → Type 0
Sent status v = (v.logged ≡ some status) × (v.run.ending ≡ returns)

abbrev pub json_calls : ℕ → String → List WriterCall
json_calls status body =
    set_header "Content-Type" "application/json" ∷ write_header status ∷ write body ∷ []

-- It is answered with a container.
abbrev pub Shows : {W : Type 0} → Wire → ℕ → Container → Served W → Type 0
Shows wire status c v =
    Sent status v
    × ((body : String) × (wire.encode_container c ≡ ok body)
        × (v.run.calls ≡ json_calls status body))

-- The identifier of a new container: that of the request, or any.
abbrev pub Chosen : Option String → String → Type 0
Chosen given id = (given ≡ none) ⊎ (given ≡ some id)

module _ {W E Q : Type 0} (client : Client W E Q) (quantities : QuantityLib Q)
    (labels_lib : LabelLib) (cfg : K8sConfig) (wire : Wire) where
  -- What an endpoint may answer, and how it changes the map of containers: 201 stores what the request
  -- says under an identifier that was free, 204 frees one that was taken, and any other answer leaves
  -- the map as it was. 200 shows what is stored under the identifier, and 404 says that it is free.
  abbrev pub HttpAllowed : Abstract Q → Abstract Q → Endpoint → Served W → Type 0
  HttpAllowed s t (creation given body) v =
      (Sent 201 v
        × ((id : String) × Chosen given id
            × (s id ≡ none)
            × ((i : String)
                → t i ≡ (
                    if id == i
                    then some (stored_from client quantities labels_lib cfg body.spec id)
                    else s i))))
      ⊎ ((Sent 400 v ⊎ Sent 409 v ⊎ Sent 500 v) × Unchanged s t)
  HttpAllowed s t (reading id) v =
      (((c : Container) × Shows wire 200 c v
          × ((x : Stored Q) × (s id ≡ some x) × Describes quantities id x c))
        ⊎ (Sent 404 v × (s id ≡ none))
        ⊎ Sent 500 v)
      × Unchanged s t
  HttpAllowed s t (deletion id) v =
      (Sent 204 v × (s id ≢ none) × ((i : String) → t i ≡ (if id == i then none else s i)))
      ⊎ (((Sent 404 v × (s id ≡ none)) ⊎ Sent 500 v) × Unchanged s t)
  HttpAllowed s t (listing size token) v = (Sent 200 v ⊎ Sent 400 v ⊎ Sent 500 v) × Unchanged s t
  HttpAllowed s t health v = Sent 200 v × Unchanged s t

  -- A session of an abstract service: requests, each with what it is answered.
  abbrev pub HttpAccepts : Abstract Q → List (Endpoint × Served W) → Abstract Q → Type 0
  HttpAccepts s [] t = Unchanged s t
  HttpAccepts s ((e, v) ∷ more) t = (u : Abstract Q) × HttpAllowed s u e v × HttpAccepts u more t
