-- ===== src/Kubernetes/Store.antt =====
-- internal/kubernetes/store*.go: the methods of K8sContainerStore, which implement the repository
-- interface of internal/store. A method is an action on the world behind the Kubernetes client.
pub mod Create
pub mod Answers
pub mod Rollback
pub mod Services
pub mod Delete
pub mod Unique
use k8s_container_service_pr.Base.{
  ℕ, String, Bool, true, false, not, ◌&&◌, ◌||◌, Option, none, some, List, [], ◌∷◌, if◌then◌else◌,
  ◌==◌, ◌<>◌, ltb, eqb, quote, length, is_empty, lookup, or_empty, Result, ok, err,
}
use k8s_container_service_pr.Base.Int.{ℤ, pos, ltb_ℤ, eqb_ℤ}
use k8s_container_service_pr.Base.Exec.{Exec, pure, raise, ◌>>=◌, ◌>>◌, catch, ignore_error}
use k8s_container_service_pr.Api.{Time, Labels, ContainerSpec, ContainerPort, Container}
use k8s_container_service_pr.Api.Enums.{pending}
use k8s_container_service_pr.Dcm
use k8s_container_service_pr.Dcm.{LabelLib}
use k8s_container_service_pr.Units.{QuantityLib}
use k8s_container_service_pr.Kube.{Deployment, Pod, Service, Client, request, detached}
use k8s_container_service_pr.Kubernetes.Convert.{
  K8sConfig, container_from_deployment, latest_deployment_transition_time,
}
use k8s_container_service_pr.Kubernetes.Enrich.{enrich_with_pod, enrich_with_service}
use k8s_container_service_pr.Kubernetes.Build.{
  ports_with_visibility, resolve_service_type, build_deployment, build_service,
}

-- The errors of internal/store/errors.go, and those of the client, which are passed on.
pub data StoreError (E : Type 0) : Type 0 where
  not_found_error : (id : String) → StoreError E
  conflict_error : (message : String) → StoreError E
  invalid_argument_error : (message : String) → StoreError E
  client_error : E → StoreError E

-- The `Error` methods.
unfoldable pub error_text : {E : Type 0} → (E → String) → StoreError E → String
error_text text (not_found_error id) = "container " <> (quote id <> " not found")
error_text text (conflict_error message) = message
error_text text (invalid_argument_error message) = message
error_text text (client_error e) = text e

-- isRollingUpdate
unfoldable pub is_rolling_update : {Q : Type 0} → Deployment Q → Bool
is_rolling_update deploy =
    elim deploy.replicas [ none ↦ false | some r ↦ not (eqb_ℤ deploy.updated_replicas r) ]
    || ltb_ℤ (pos 0) deploy.unavailable_replicas

abbrev first_running : List Pod → Option Pod
first_running [] = none
first_running (p ∷ ps) = if p.phase == "Running" then some p else first_running ps

abbrev newest_of : Pod → List Pod → Pod
newest_of newest [] = newest
newest_of newest (p ∷ ps) =
    newest_of (if ltb newest.creation_timestamp p.creation_timestamp then p else newest) ps

abbrev or_newest : Option Pod → Pod → List Pod → Pod
or_newest none p ps = newest_of p ps
or_newest (some r) p ps = r

-- selectActivePod, on a first pod and the rest.
unfoldable pub select_active_pod : Pod → List Pod → Pod
select_active_pod p ps = or_newest (first_running (p ∷ ps)) p ps

-- newContainerResult
unfoldable pub new_container_result : ContainerSpec → String → String → Time → Container
new_container_result spec id namespace now = record {
  create_time = some now;
  id = some id;
  path = some ("containers/" <> id);
  service = none;
  spec = record spec { metadata = record spec.metadata { namespace = some namespace } };
  status = some pending;
  update_time = some now;
}

-- The number of deployments that findDeployment found.
unfoldable pub single_deployment :
    {W E Q : Type 0} → String → List (Deployment Q) → Exec W (StoreError E) (Deployment Q)
single_deployment container_id [] = raise (not_found_error container_id)
single_deployment container_id (d ∷ []) = pure d
single_deployment container_id (d ∷ e ∷ ds) =
    raise (conflict_error ("multiple deployments found for container " <> quote container_id))

abbrev pub multiple_pods : String → String
multiple_pods instance_id = "multiple pods found for container " <> quote instance_id

abbrev or_keep : Option Time → Option Time → Option Time
or_keep none old = old
or_keep (some t) old = some t

-- A container with no pod yet.
unfoldable pub pending_container : {Q : Type 0} → Deployment Q → Container → Container
pending_container deploy c = record c {
  status = some pending;
  update_time = or_keep (latest_deployment_transition_time deploy) c.update_time;
}

-- A container gets the data of its service if there is exactly one.
unfoldable pub enrich_with_services : List Service → Container → Container
enrich_with_services (svc ∷ []) c = enrich_with_service c svc
enrich_with_services _ c = c

-- K8sContainerStore: the client with its libraries, and the configuration.
module _ {W E Q : Type 0} (client : Client W E Q) (quantities : QuantityLib Q)
    (labels_lib : LabelLib) (cfg : K8sConfig) where
  -- `if err != nil { return nil, err }` after a call of the client
  abbrev pub call : {A : Type 0} → Exec W E A → Exec W (StoreError E) A
  call m = catch m (λ e. raise (client_error e))

  abbrev pub Action : Type 0 → Type 0
  Action A = Exec W (StoreError E) A

  -- CheckHealth
  unfoldable pub check_health : Action (Unit {0})
  check_health = do call client.server_version; pure tt

  -- findDeployment
  unfoldable pub find_deployment : String → Action (Deployment Q)
  find_deployment container_id = do
    deploys ← call (
        client.list_deployments request cfg.namespace
          (Dcm.instance_selector labels_lib container_id))
    single_deployment container_id deploys

  -- The switch of enrichFromCluster on the pods that were found.
  unfoldable pub enrich_with_pods : String → Deployment Q → List Pod → Container → Action Container
  enrich_with_pods instance_id deploy [] c = pure (pending_container deploy c)
  enrich_with_pods instance_id deploy (p ∷ []) c = pure (enrich_with_pod c p)
  enrich_with_pods instance_id deploy (p ∷ q ∷ []) c =
      if is_rolling_update deploy
      then pure (enrich_with_pod c (select_active_pod p (q ∷ [])))
      else raise (conflict_error (multiple_pods instance_id))
  enrich_with_pods instance_id deploy (p ∷ q ∷ r ∷ ps) c =
      raise (conflict_error (multiple_pods instance_id))

  -- enrichFromCluster
  unfoldable pub enrich_from_cluster : Container → Deployment Q → String → Action Container
  unfolding enrich_with_pods
  enrich_from_cluster c deploy instance_id = do
    pods ←
        call (client.list_pods request cfg.namespace (Dcm.instance_selector labels_lib instance_id))
    c' ← enrich_with_pods instance_id deploy pods c
    svcs ←
        call (
          client.list_services request cfg.namespace (Dcm.instance_selector labels_lib instance_id))
    pure (enrich_with_services svcs c')

  -- buildContainer
  unfoldable pub build_container : Deployment Q → String → Action Container
  unfolding enrich_from_cluster container_from_deployment
  build_container deploy instance_id =
      enrich_from_cluster (container_from_deployment quantities deploy instance_id) deploy
        instance_id

  -- Get
  unfoldable pub get : String → Action Container
  unfolding find_deployment build_container
  get container_id = do deploy ← find_deployment container_id; build_container deploy container_id

  abbrev pub delete_each : List Service → Action (Unit {0})
  delete_each [] = pure tt
  delete_each (svc ∷ svcs) = do
    call (client.delete_service request cfg.namespace svc.name)
    delete_each svcs

  -- Delete: the services first, then the deployment, in a context that outlives the request.
  unfoldable pub delete : String → Action (Unit {0})
  unfolding find_deployment
  delete container_id = do
    deploy ← find_deployment container_id
    svcs ←
        call (
          client.list_services request cfg.namespace
            (Dcm.instance_selector labels_lib container_id))
    delete_each svcs
    call (client.delete_deployment (detached 30) cfg.namespace deploy.name)

  -- The labels of a new container: DCM's over the user's.
  unfoldable pub create_labels : ContainerSpec → String → Labels
  create_labels spec id = elim spec.metadata.labels [
    | none ↦ Dcm.labels id
    | some user ↦ Dcm.merge_labels labels_lib (Dcm.labels id) user
  ]

  abbrev create_deployment_error : ContainerSpec → E → StoreError E
  create_deployment_error spec e =
      if client.is_already_exists e
      then conflict_error ("deployment " <> (quote spec.metadata.name <> " already exists"))
      else client_error e

  -- The deployment that was just created is taken back; an error of this is only logged.
  abbrev rollback : Deployment Q → E → Action Service
  rollback deploy e = do
    ignore_error (client.delete_deployment (detached 30) cfg.namespace deploy.name)
    raise (client_error e)

  -- The service of a new container, if it has ports to expose.
  unfoldable pub create_service :
      ContainerSpec → String → Labels → List ContainerPort → Deployment Q → Action (Unit {0})
  create_service spec id labels [] deploy = pure tt
  create_service spec id labels (p ∷ ps) deploy = do
    let svc_type = resolve_service_type cfg (p ∷ ps)
    let svc = build_service spec id cfg labels svc_type (p ∷ ps)
    catch (client.create_service request cfg.namespace svc) (rollback deploy)
    pure tt

  -- What Create does after the check for a duplicate.
  unfoldable pub create_objects : ContainerSpec → String → Action Container
  unfolding create_labels create_service build_deployment ports_with_visibility
  create_objects spec id = do
    let labels = create_labels spec id
    deploy ←
        catch
          (client.create_deployment request cfg.namespace
            (build_deployment quantities spec id cfg labels))
          (λ e. raise (create_deployment_error spec e))
    create_service spec id labels (ports_with_visibility spec) deploy
    λ w. (ok (new_container_result spec id cfg.namespace (client.now w)), w)

  -- Create
  unfoldable pub create : ContainerSpec → String → Action Container
  unfolding create_objects new_container_result
  create spec id = do
    existing ←
        call (client.list_deployments request cfg.namespace (Dcm.instance_selector labels_lib id))
    if is_empty existing
        then create_objects spec id
        else raise
            (conflict_error ("container with instance ID " <> (quote id <> " already exists")))
