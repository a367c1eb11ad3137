-- ===== src/Monitoring/Monitor/Laws.antt =====
-- What an event of an informer does to the debouncer.
use k8s_container_service_pr.Base.{
  String, true, false, Option, none, List, ◌≡◌, sym, ◌⊎◌, refl, inl, inr, Bool-cases, Option-cases,
  is_nil, if◌then◌else◌,
}
use mathlib.Core.Path.{subst}
use k8s_container_service_pr.Api.Enums.{is_valid_status}
use k8s_container_service_pr.Kube.{Deployment, Pod}
use k8s_container_service_pr.Monitoring.Reconcile.{
  reconcile_status, lookup_pod_by_index, lookup_deploy_by_index,
}
use k8s_container_service_pr.Monitoring.Reconcile.Laws.{IsReported, reconcile_status-valid}
use k8s_container_service_pr.Monitoring.Debouncer.{Debouncer, StatusEvent, submit}
use k8s_container_service_pr.Monitoring.Monitor.{
  Object, DeletedObject, object_id, extract_instance_id_from_delete, reconcile_and_submit,
  as_deployment, as_pod, handle_deploy_event, handle_deploy_delete, handle_pod_event,
  handle_pod_delete,
}

-- Nothing, or one submission for the instance, of an event that names it and has a status of the API.
abbrev pub Submits : String → Debouncer → Debouncer → Type 0
Submits id before after =
    (after ≡ before)
    ⊎ ((event : StatusEvent) × (is_nil id ≡ false)
        × (event.instance_id ≡ id)
        × (is_valid_status event.status ≡ true)
        × (after ≡ submit id event before))

reconcile_and_submit-Submits :
    {Q : Type 0} (id : String) (deploy : Option (Deployment Q)) (pod : Option Pod) (d : Debouncer)
    → is_nil id ≡ false
    → Submits id d (reconcile_and_submit id deploy pod d)
unfolding reconcile_and_submit IsReported
reconcile_and_submit-Submits id deploy pod d named =
    elim (Option-cases (reconcile_status deploy pod)) [
      | inl e ↦ rw (reconcile_and_submit, e) (inl refl)
      | inr ((status, message), e) ↦
          rw (reconcile_and_submit, e)
            (inr (_, named, refl, subst IsReported e (reconcile_status-valid deploy pod), refl))
    ]

guarded :
    (id : String) (d after : Debouncer)
    → (is_nil id ≡ false → Submits id d after)
    → Submits id d (if is_nil id then d else after)
guarded id d after h = elim (Bool-cases (is_nil id)) [
  | inl e ↦ subst (λ b. Submits id d (if b then d else after)) (sym e) (inl refl)
  | inr e ↦ subst (λ b. Submits id d (if b then d else after)) (sym e) (h e)
]

module _ {Q : Type 0} (pods : String → Option (List Pod))
    (deploys : String → Option (List (Deployment Q))) where
  -- Each of the four handlers, on any object, known or deleted, and any state of the indexes, submits
  -- nothing, or one event for the instance of the object, of that instance and with a status of the API;
  -- an object without the label of an instance is ignored.
  pub handlers-Submits :
      (obj : Object Q) (gone : DeletedObject Q) (d : Debouncer)
      → Submits (object_id obj) d (handle_deploy_event pods deploys obj d)
        × Submits
            (extract_instance_id_from_delete gone)
            d
            (handle_deploy_delete pods deploys gone d)
        × Submits (object_id obj) d (handle_pod_event pods deploys obj d)
        × Submits (extract_instance_id_from_delete gone) d (handle_pod_delete pods deploys gone d)
  unfolding handle_deploy_event handle_deploy_delete handle_pod_event handle_pod_delete
  handlers-Submits obj gone d = (
    guarded (object_id obj) d _ (
        reconcile_and_submit-Submits (object_id obj) (as_deployment obj)
          (lookup_pod_by_index (pods (object_id obj))) d),
    guarded (extract_instance_id_from_delete gone) d _ (
        reconcile_and_submit-Submits {Q = Q} (extract_instance_id_from_delete gone) none
          (lookup_pod_by_index (pods (extract_instance_id_from_delete gone))) d),
    guarded (object_id obj) d _ (
        reconcile_and_submit-Submits (object_id obj)
          (lookup_deploy_by_index (deploys (object_id obj))) (as_pod obj) d),
    guarded (extract_instance_id_from_delete gone) d _ (
        reconcile_and_submit-Submits (extract_instance_id_from_delete gone)
          (lookup_deploy_by_index (deploys (extract_instance_id_from_delete gone)))
          (lookup_pod_by_index (pods (extract_instance_id_from_delete gone))) d),
  )
