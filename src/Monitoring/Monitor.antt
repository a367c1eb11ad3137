-- ===== src/Monitoring/Monitor.antt =====
-- internal/monitoring/monitor.go: the event handlers of the informers.
pub mod Laws
use k8s_container_service_pr.Base.{String, Option, none, some, List, [], ◌∷◌, if◌then◌else◌, is_nil}
use k8s_container_service_pr.Api.{Labels}
use k8s_container_service_pr.Kube.{Deployment, Pod}
use k8s_container_service_pr.Monitoring.Reconcile.{
  reconcile_status, extract_instance_id, lookup_pod_by_index, lookup_deploy_by_index,
}
use k8s_container_service_pr.Monitoring.Debouncer.{Debouncer, submit}

-- An object that an informer hands over; `foreign` is no API object.
pub data Object (Q : Type 0) : Type 0 where
  deployment_object : Deployment Q → Object Q
  pod_object : Pod → Object Q
  foreign : Object Q

-- What a delete handler gets: the object, or cache.DeletedFinalStateUnknown with the last known one.
pub data DeletedObject (Q : Type 0) : Type 0 where
  observed : Object Q → DeletedObject Q
  final_state_unknown : Object Q → DeletedObject Q

-- obj.(metav1.Object), and its labels
abbrev object_labels : {Q : Type 0} → Object Q → Option Labels
object_labels (deployment_object d) = some d.labels
object_labels (pod_object p) = some p.labels
object_labels foreign = none

-- InstanceIDIndexFunc
unfoldable pub instance_id_index_func : {Q : Type 0} → Object Q → List String
unfolding extract_instance_id
instance_id_index_func obj = elim (object_labels obj) [
  | none ↦ []
  | some labels ↦
      if is_nil (extract_instance_id labels) then [] else extract_instance_id labels ∷ []
]

abbrev pub object_id : {Q : Type 0} → Object Q → String
object_id obj = elim (object_labels obj) [ none ↦ "" | some labels ↦ extract_instance_id labels ]

-- extractInstanceIDFromDelete
unfoldable pub extract_instance_id_from_delete : {Q : Type 0} → DeletedObject Q → String
extract_instance_id_from_delete (observed obj) = object_id obj
extract_instance_id_from_delete (final_state_unknown obj) = object_id obj

abbrev pub as_deployment : {Q : Type 0} → Object Q → Option (Deployment Q)
as_deployment (deployment_object d) = some d
as_deployment _ = none

abbrev pub as_pod : {Q : Type 0} → Object Q → Option Pod
as_pod (pod_object p) = some p
as_pod _ = none

-- reconcileAndSubmit
unfoldable pub reconcile_and_submit :
    {Q : Type 0} → String → Option (Deployment Q) → Option Pod → Debouncer → Debouncer
unfolding reconcile_status submit
reconcile_and_submit id deploy pod debouncer = elim (reconcile_status deploy pod) [
  | none ↦ debouncer
  | some (status, msg) ↦
      submit id (record { instance_id = id; status = status; message = msg }) debouncer
]

-- The indexers of the two informers: what they have for an instance, or an error.
module _ {Q : Type 0} (pods : String → Option (List Pod))
    (deploys : String → Option (List (Deployment Q))) where
  unfoldable pub handle_deploy_event : Object Q → Debouncer → Debouncer
  unfolding reconcile_and_submit lookup_pod_by_index
  handle_deploy_event obj debouncer =
      let id = object_id obj in
      if is_nil id
      then debouncer
      else reconcile_and_submit id (as_deployment obj) (lookup_pod_by_index (pods id)) debouncer

  unfoldable pub handle_deploy_delete : DeletedObject Q → Debouncer → Debouncer
  unfolding reconcile_and_submit lookup_pod_by_index extract_instance_id_from_delete
  handle_deploy_delete obj debouncer =
      let id = extract_instance_id_from_delete obj in
      if is_nil id
      then debouncer
      else reconcile_and_submit {Q = Q} id none (lookup_pod_by_index (pods id)) debouncer

  unfoldable pub handle_pod_event : Object Q → Debouncer → Debouncer
  unfolding reconcile_and_submit lookup_deploy_by_index
  handle_pod_event obj debouncer =
      let id = object_id obj in
      if is_nil id
      then debouncer
      else reconcile_and_submit id (lookup_deploy_by_index (deploys id)) (as_pod obj) debouncer

  unfoldable pub handle_pod_delete : DeletedObject Q → Debouncer → Debouncer
  unfolding reconcile_and_submit lookup_deploy_by_index lookup_pod_by_index
      extract_instance_id_from_delete
  handle_pod_delete obj debouncer =
      let id = extract_instance_id_from_delete obj in
      if is_nil id
      then debouncer
      else reconcile_and_submit id (lookup_deploy_by_index (deploys id))
          (lookup_pod_by_index (pods id)) debouncer
