-- ===== src/Handlers/Handler.antt =====
-- internal/handlers/container/handler.go: the operations of the API over a repository
-- (internal/store/repository.go). The strict server always hands CreateContainer a body.
pub mod Laws
use k8s_container_service_pr.Base.{
  ℕ, ◌-◌, ◌/◌, String, Bool, true, false, Option, none, some, List, [], ◌∷◌, ◌++◌, if◌then◌else◌,
  ◌<>◌, Result, ok, err,
}
use k8s_container_service_pr.Base.Int.{ℤ, pos}
use k8s_container_service_pr.Base.Exec.{Exec}
use k8s_container_service_pr.Api.{Time, ContainerSpec, Container, ContainerList, Health}
use k8s_container_service_pr.Units.{QuantityLib}
use k8s_container_service_pr.Kubernetes.Store.{StoreError}
use k8s_container_service_pr.Handlers.Validation.{
  ValidationError, validate_container_id, validate_resources, validate_user_labels,
}
use k8s_container_service_pr.Handlers.Errors.{
  Response, success, problem, Outcome, returned, panicked, new_create_error400,
  new_create_multi_error400, map_create_error, map_get_error, map_delete_error, map_list_error,
}

-- ContainerRepository
pub record Repository (W E : Type 0) : Type 0 where
  pub create : ContainerSpec → String → Exec W (StoreError E) Container
  pub get : String → Exec W (StoreError E) Container
  pub list : ℤ → String → Exec W (StoreError E) ContainerList
  pub delete : String → Exec W (StoreError E) (Unit {0})
  pub check_health : Exec W (StoreError E) (Unit {0})

abbrev pub containers_base_path : String
containers_base_path = "/api/v1alpha1/containers"

abbrev pub or_generated : Option String → String → String
or_generated none new_id = new_id
or_generated (some id) new_id = id

abbrev pub or_zero : Option ℤ → ℤ
or_zero none = pos 0
or_zero (some n) = n

abbrev pub or_no_token : Option String → String
or_no_token none = ""
or_no_token (some t) = t

-- `if err != nil { return h.mapXError(err, path), nil }` and the success response after it.
abbrev pub respond :
    {E A : Type 0} → ℕ → (StoreError E → Response A) → Result (StoreError E) A → Response A
respond status on_error (ok a) = success status a
respond status on_error (err e) = on_error e

module _ {W E Q : Type 0} (quantities : QuantityLib Q) (text : E → String)
    (store : Repository W E) where
  -- CreateContainer after the checks.
  unfoldable pub create_checked : ContainerSpec → String → W → Response Container × W
  unfolding map_create_error
  create_checked spec id w =
      let (result, w') = store.create spec id w in
      (respond 201 (λ e. map_create_error text e containers_base_path) result, w')

  -- The two lengths of the error list that end the call, and the call of the store.
  unfoldable pub create_with_errors :
      List ValidationError → ContainerSpec → String → W → Outcome (Response Container) × W
  unfolding create_checked new_create_error400 new_create_multi_error400
  create_with_errors [] spec id w =
      let (response, w') = create_checked spec id w in (returned response, w')
  create_with_errors (e ∷ []) spec id w =
      (returned (new_create_error400 e.detail e.pointer containers_base_path), w)
  create_with_errors (e ∷ f ∷ es) spec id w =
      (new_create_multi_error400 (e ∷ f ∷ es) containers_base_path, w)

  abbrev create_with_id_error :
      Option ValidationError → ContainerSpec → String → W → Outcome (Response Container) × W
  create_with_id_error (some e) spec id w =
      (returned (new_create_error400 e.detail e.pointer containers_base_path), w)
  create_with_id_error none spec id w =
      create_with_errors
        (validate_resources quantities spec.resources ++ validate_user_labels spec.metadata.labels)
        spec id w

  -- CreateContainer; `new_id` is uuid.New().String().
  unfoldable pub create_container :
      Option String → String → ContainerSpec → W → Outcome (Response Container) × W
  unfolding create_with_errors validate_container_id validate_resources validate_user_labels
  create_container params_id new_id spec w =
      let id = or_generated params_id new_id in
      create_with_id_error (validate_container_id id) spec id w

  -- GetContainer
  unfoldable pub get_container : String → W → Response Container × W
  unfolding map_get_error
  get_container container_id w =
      let (result, w') = store.get container_id w in
      (
        respond 200 (λ e. map_get_error text e (containers_base_path <> ("/" <> container_id)))
            result,
        w',
      )

  -- DeleteContainer
  unfoldable pub delete_container : String → W → Response (Unit {0}) × W
  unfolding map_delete_error
  delete_container container_id w =
      let (result, w') = store.delete container_id w in
      (
        respond 204 (λ e. map_delete_error text e (containers_base_path <> ("/" <> container_id)))
            result,
        w',
      )

  -- ListContainers
  unfoldable pub list_containers : Option ℤ → Option String → W → Response ContainerList × W
  unfolding map_list_error
  list_containers max_page_size page_token w =
      let (result, w') = store.list (or_zero max_page_size) (or_no_token page_token) w in
      (respond 200 (λ e. map_list_error text e containers_base_path) result, w')

abbrev health_status : {W E : Type 0} → Option (Repository W E) → W → String × W
health_status none w = ("healthy", w)
health_status (some store) w =
    let (result, w') = store.check_health w in
    (elim result [ ok a ↦ "healthy" | err e ↦ "unhealthy" ], w')

-- GetHealth; the store may be nil. Times count nanoseconds, and `-` stops at 0 as the `max` does.
unfoldable pub get_health :
    {W E : Type 0} → Option (Repository W E) → Time → String → Time → W → Response Health × W
get_health store start_time version now w =
    let (status, w') = health_status store w in
    (
      success 200 (record {
        path = some "health";
        status = status;
        type_ = some "k8s-container-service-provider.dcm.io/health";
        uptime = some ((now - start_time) / 1000000000);
        version = some version;
      }),
      w',
    )
