-- ===== src/Contract.antt =====
-- The contract of internal/store/repository.go, and K8sContainerStore of internal/kubernetes/store.go
-- as an implementation: an abstract repository is a map from instance IDs to what is stored there.
pub mod Outcomes
pub mod Writes
pub mod Held
pub mod Steps
pub mod Refinement
use k8s_container_service_pr.Base.{
  String, Bool, true, false, Option, none, some, List, [], ◌∷◌, ◌≡◌, ◌≢◌, ◌⊎◌, ◌==◌, ◌<>◌, filter,
  quote, Result, ok, err, if◌then◌else◌,
}
use k8s_container_service_pr.Base.Int.{ℤ}
use k8s_container_service_pr.Base.Exec.{Exec}
use k8s_container_service_pr.Api.{Labels, ContainerSpec, Container, ContainerList}
use k8s_container_service_pr.Dcm.{LabelLib, instance_labels, matches}
use k8s_container_service_pr.Units.{QuantityLib}
use k8s_container_service_pr.Kube.{KubeContainer, Deployment, Client}
use k8s_container_service_pr.Kube.Laws.{View}
use k8s_container_service_pr.Kubernetes.Convert.{
  K8sConfig, process_from_container, resources_from_container,
}
use k8s_container_service_pr.Kubernetes.Build.{build_container}
use k8s_container_service_pr.Kubernetes.Store
use k8s_container_service_pr.Kubernetes.Store.{
  StoreError, not_found_error, conflict_error, client_error, create_labels, multiple_pods,
}
use k8s_container_service_pr.Kubernetes.Store.Answers.{IsClientError}
use k8s_container_service_pr.Kubernetes.Paging
use k8s_container_service_pr.Handlers.Handler.{Repository}

-- NewK8sContainerStore, as the repository that it is used for.
unfoldable pub new_k8s_container_store :
    {W E Q : Type 0} → Client W E Q → QuantityLib Q → LabelLib → K8sConfig → Repository W E
new_k8s_container_store client quantities labels_lib cfg = record {
  create = Store.create client quantities labels_lib cfg;
  get = Store.get client quantities labels_lib cfg;
  list = Paging.list client quantities labels_lib cfg;
  delete = Store.delete client quantities labels_lib cfg;
  check_health = Store.check_health client quantities labels_lib cfg;
}

-- A call of the repository, and its answer.
pub data Call : Type 0 where
  create_call : ContainerSpec → String → Call
  get_call delete_call : String → Call
  list_call : ℤ → String → Call

pub data Answer (E : Type 0) : Type 0 where
  made found : Container → Answer E
  listed : ContainerList → Answer E
  removed : Answer E
  refused : StoreError E → Answer E

abbrev pub answer_of : {E A : Type 0} → (A → Answer E) → Result (StoreError E) A → Answer E
answer_of f (ok a) = f a
answer_of f (err e) = refused e

unfoldable pub perform : {W E : Type 0} → Repository W E → Call → W → Answer E × W
perform r (create_call spec id) w = let (a, v) = r.create spec id w in (answer_of made a, v)
perform r (get_call id) w = let (a, v) = r.get id w in (answer_of found a, v)
perform r (delete_call id) w = let (a, v) = r.delete id w in (answer_of (λ t. removed) a, v)
perform r (list_call size token) w = let (a, v) = r.list size token w in (answer_of listed a, v)

-- What a container is stored as.
pub record Stored (Q : Type 0) : Type 0 where
  pub labels : Labels
  pub container : KubeContainer Q

abbrev pub Abstract : Type 0 → Type 0
Abstract Q = String → Option (Stored Q)

abbrev pub stored_of : {Q : Type 0} → Deployment Q → Stored Q
stored_of d = record { labels = d.labels; container = d.container }

abbrev pub first_of : {Q : Type 0} → List (Deployment Q) → Option (Stored Q)
first_of [] = none
first_of (d ∷ ds) = some (stored_of d)

-- The abstract repository that a namespace of the cluster stands for.
abbrev pub abstraction : {W Q : Type 0} → View W Q → String → W → Abstract Q
abstraction view ns w id =
    first_of (filter (λ d. matches (instance_labels id) d.labels) (view.deployments w ns))

abbrev pub Unchanged : {Q : Type 0} → Abstract Q → Abstract Q → Type 0
Unchanged s t = (i : String) → t i ≡ s i

abbrev pub taken_name : String → String
taken_name name = "deployment " <> (quote name <> " already exists")

abbrev pub taken_id : String → String
taken_id id = "container with instance ID " <> (quote id <> " already exists")

-- A container that is read back has the identifier, the image, the process and the resources of what
-- is stored.
abbrev pub Describes : {Q : Type 0} → QuantityLib Q → String → Stored Q → Container → Type 0
Describes quantities id x c =
    (c.id ≡ some id)
    × (c.spec.image.reference ≡ x.container.image)
    × (c.spec.process ≡ process_from_container x.container)
    × (c.spec.resources ≡ resources_from_container quantities x.container)

module _ {W E Q : Type 0} (client : Client W E Q) (quantities : QuantityLib Q)
    (labels_lib : LabelLib) (cfg : K8sConfig) where
  abbrev pub stored_from : ContainerSpec → String → Stored Q
  stored_from spec id = record {
    labels = create_labels client quantities labels_lib cfg spec id;
    container = build_container quantities spec;
  }

  -- What a call may answer, and how it changes the map: creating stores what the specification says
  -- under an identifier that is free, deleting frees one that is taken, and nothing else changes it.
  -- A taken identifier is a conflict and a free one is not found; the other errors are the cluster's.
  abbrev pub Allowed : Abstract Q → Abstract Q → Call → Answer E → Type 0
  Allowed s t (create_call spec id) (made c) =
      (s id ≡ none)
      × ((i : String) → t i ≡ (if id == i then some (stored_from spec id) else s i))
      × (c.id ≡ some id)
  Allowed s t (create_call spec id) (refused f) =
      Unchanged s t
      × (((s id ≢ none) × (f ≡ conflict_error (taken_id id)))
          ⊎ ((s id ≡ none) × (f ≡ conflict_error (taken_name spec.metadata.name)))
          ⊎ IsClientError f)
  Allowed s t (get_call id) (found c) =
      Unchanged s t × ((x : Stored Q) × (s id ≡ some x) × Describes quantities id x c)
  Allowed s t (get_call id) (refused f) =
      Unchanged s t
      × (((s id ≡ none) × (f ≡ not_found_error id))
          ⊎ ((s id ≢ none) × (f ≡ conflict_error (multiple_pods id)))
          ⊎ IsClientError f)
  Allowed s t (delete_call id) removed =
      (s id ≢ none) × ((i : String) → t i ≡ (if id == i then none else s i))
  Allowed s t (delete_call id) (refused f) =
      Unchanged s t × (((s id ≡ none) × (f ≡ not_found_error id)) ⊎ IsClientError f)
  Allowed s t (list_call size token) (listed l) = Unchanged s t
  Allowed s t (list_call size token) (refused f) = Unchanged s t
  Allowed s t _ _ = ⊥

  -- A run of the abstract repository: the calls with their answers, one after the other.
  abbrev pub Accepts : Abstract Q → List (Call × Answer E) → Abstract Q → Type 0
  Accepts s [] t = Unchanged s t
  Accepts s ((c, a) ∷ more) t = (u : Abstract Q) × Allowed s u c a × Accepts u more t

-- A run of a repository.
unfoldable pub run_calls :
    {W E : Type 0} → Repository W E → List Call → W → List (Call × Answer E) × W
unfolding perform
run_calls r [] w = ([], w)
run_calls r (c ∷ cs) w =
    let (a, v) = perform r c w in let (more, u) = run_calls r cs v in ((c, a) ∷ more, u)
