-- ===== src/Monitoring/Reconcile.antt =====
-- internal/monitoring/reconcile.go and indexer.go, and the choice of a pod in monitor.go.
pub mod Laws
use k8s_container_service_pr.Base.{
  ℕ, zero, suc, ◌+◌, String, Bool, true, false, ◌&&◌, Option, none, some, List, [], ◌∷◌,
  if◌then◌else◌, ◌==◌, ltb, is_nil, lookup, or_empty,
}
use k8s_container_service_pr.Base.Int.{ℤ, pos, eqb_ℤ}
use k8s_container_service_pr.Api.Enums.{ContainerStatus, deleted, failed, pending}
use k8s_container_service_pr.Api.{Labels}
use k8s_container_service_pr.Dcm
use k8s_container_service_pr.Kube.{Deployment, DeploymentCondition, ContainerState, Pod}
use k8s_container_service_pr.Kubernetes.Convert.{map_pod_phase_to_status}

-- A reason that is there and not empty.
abbrev reason_of : Option String → Option String
reason_of none = none
reason_of (some r) = if is_nil r then none else some r

-- One container status: the waiting reason before the terminated one.
unfoldable pub state_reason : ContainerState → Option String
state_reason cs = elim (reason_of cs.waiting) [ some r ↦ some r | none ↦ reason_of cs.terminated ]

-- The loop of extractPodFailureReason; the empty text at its end.
unfoldable pub first_reason : List ContainerState → String
unfolding state_reason
first_reason [] = ""
first_reason (cs ∷ rest) = elim (state_reason cs) [ some r ↦ r | none ↦ first_reason rest ]

unfoldable pub extract_pod_failure_reason : Pod → String
unfolding first_reason
extract_pod_failure_reason pod = first_reason pod.container_statuses

abbrev or_phase : String → String → String
or_phase reason phase = if is_nil reason then phase else reason

-- The status and the message of a pod; `none` where nothing is to be published.
unfoldable pub reconcile_pod : Pod → Option (ContainerStatus × String)
unfolding extract_pod_failure_reason map_pod_phase_to_status
reconcile_pod pod = elim (map_pod_phase_to_status pod.phase) [
  | none ↦ none
  | some status ↦ some (
    status,
    if status == failed then or_phase (extract_pod_failure_reason pod) pod.phase else pod.phase,
  )
]

abbrev or_replica_failure : String → String
or_replica_failure message = if is_nil message then "replica failure" else message

-- The loop over the conditions of a deployment with no pod.
unfoldable pub conditions_status : List DeploymentCondition → ContainerStatus × String
conditions_status [] = (pending, "waiting for pods")
conditions_status (c ∷ cs) =
    let rest = conditions_status cs in
    if c.type_ == "ReplicaFailure" && c.status == "True"
    then (failed, or_replica_failure c.message)
    else rest

abbrev pub is_zero : Option ℤ → Bool
is_zero none = false
is_zero (some r) = eqb_ℤ r (pos 0)

unfoldable pub reconcile_deployment : {Q : Type 0} → Deployment Q → ContainerStatus × String
unfolding conditions_status
reconcile_deployment deploy =
    if is_zero deploy.replicas
    then (failed, "deployment scaled to zero")
    else conditions_status deploy.conditions

-- ReconcileStatus; `none` where the third result of the Go function is false.
unfoldable pub reconcile_status :
    {Q : Type 0} → Option (Deployment Q) → Option Pod → Option (ContainerStatus × String)
unfolding reconcile_pod reconcile_deployment
reconcile_status none none = some (deleted, "resource no longer exists")
reconcile_status _ (some pod) = reconcile_pod pod
reconcile_status (some deploy) none = some (reconcile_deployment deploy)

-- ExtractInstanceID
unfoldable pub extract_instance_id : Labels → String
extract_instance_id labels = or_empty (lookup Dcm.label_instance_id labels)

-- podPhasePriority
unfoldable pub pod_phase_priority : String → ℕ
pod_phase_priority phase =
    if phase == "Failed"
    then 4
    else if phase == "Unknown"
    then 3
    else if phase == "Pending"
    then 2
    else if phase == "Running"
    then 1
    else 0

-- The loop of lookupPodByIndex: the first pod of the highest priority.
unfoldable pub worst_of : Pod → List Pod → Pod
worst_of worst [] = worst
worst_of worst (p ∷ ps) =
    worst_of
      (if ltb (pod_phase_priority worst.phase) (pod_phase_priority p.phase) then p else worst) ps

-- lookupPodByIndex, on what the index has for an instance; `none` also where the index fails.
unfoldable pub lookup_pod_by_index : Option (List Pod) → Option Pod
unfolding worst_of
lookup_pod_by_index none = none
lookup_pod_by_index (some []) = none
lookup_pod_by_index (some (p ∷ ps)) = some (worst_of p ps)

-- lookupDeployByIndex
unfoldable pub lookup_deploy_by_index :
    {Q : Type 0} → Option (List (Deployment Q)) → Option (Deployment Q)
lookup_deploy_by_index none = none
lookup_deploy_by_index (some []) = none
lookup_deploy_by_index (some (d ∷ ds)) = some d
