-- ===== src/Examples/Store.antt =====
-- The store over a cluster in memory.
use k8s_container_service_pr.Base.{
  String, List, [], ◌∷◌, ◌≡◌, refl, Bool, true, false, Result, ok, err, filter, arith, lookup,
}
use k8s_container_service_pr.Api.{Container, ContainerSpec}
use k8s_container_service_pr.Dcm
use k8s_container_service_pr.Dcm.{instance_labels, matches, has_label}
use k8s_container_service_pr.Kube.{Deployment, Service}
use k8s_container_service_pr.Kube.Laws.{SameDeployments, SameServices, without_deployment}
use k8s_container_service_pr.Kube.Memory.{Cluster, memory_client, memory_view, attempt}
use k8s_container_service_pr.Kube.Memory.Selectors.{
  memory_labels, memory_label_laws, parse_set-set_string,
}
use k8s_container_service_pr.Kube.Memory.Lawful.{memory_laws}
use k8s_container_service_pr.Kubernetes.Build.{build_deployment, build_service}
use k8s_container_service_pr.Kubernetes.Store.{
  StoreError, client_error, create, create_objects, create_service, new_container_result, delete,
  find_deployment, single_deployment,
}
use k8s_container_service_pr.Kubernetes.Store.Create.{create-done, Created}
use k8s_container_service_pr.Kubernetes.Store.Rollback.{RollsBack, create-failed}
use k8s_container_service_pr.Examples.Fixtures.{
  text_quantities, node_port_config, web_spec, empty_cluster,
}
use k8s_container_service_pr.Kubernetes.Store.Delete.{delete-done}
use k8s_container_service_pr.Kubernetes.Store.Delete.Failed.{delete-failed}
use k8s_container_service_pr.Kubernetes.Store.Unique.{IsUnique, create-IsUnique, writes-IsUnique}

-- A deletion in a context of its own is answered by the cluster in memory.
pub memory-RollsBack :
    (spec : ContainerSpec) (id : String) (w : Cluster String)
    → RollsBack memory_client text_quantities memory_labels node_port_config spec id w
unfolding attempt
memory-RollsBack spec id w d e listed some_port made refused = refl

abbrev pub create_web : List Bool → Result (StoreError String) Container × Cluster String
create_web faults =
    create memory_client text_quantities memory_labels node_port_config web_spec "c1"
      (empty_cluster faults)

web_created : (create_web []).0 ≡ ok (new_container_result web_spec "c1" "default" 1)
unfolding create create_objects create_service new_container_result attempt
web_created = refl

-- The service is refused: the second call of the request succeeds, the third fails.
web_refused : (create_web (false ∷ false ∷ true ∷ [])).0 ≡ err (client_error "unavailable")
unfolding create create_objects create_service new_container_result attempt
web_refused = refl

create-done_example :
    (filter (λ (d : Deployment String). matches (instance_labels "c1") d.labels) [] ≡ [])
    × Created memory_client text_quantities memory_labels node_port_config memory_view memory_laws
        web_spec "c1"
        (new_container_result web_spec "c1" "default" 1)
        (empty_cluster [])
        (create_web []).1
create-done_example =
    create-done memory_client text_quantities memory_labels node_port_config memory_view memory_laws
      web_spec "c1" (new_container_result web_spec "c1" "default" 1) (empty_cluster []) web_created

create-failed_example :
    SameDeployments memory_view "default"
      (empty_cluster (false ∷ false ∷ true ∷ []))
      (create_web (false ∷ false ∷ true ∷ [])).1
    × SameServices memory_view "default"
        (empty_cluster (false ∷ false ∷ true ∷ []))
        (create_web (false ∷ false ∷ true ∷ [])).1
create-failed_example =
    create-failed memory_client text_quantities memory_labels node_port_config memory_view
      memory_laws web_spec "c1" (client_error "unavailable")
      (empty_cluster (false ∷ false ∷ true ∷ []))
      (memory-RollsBack web_spec "c1" (empty_cluster (false ∷ false ∷ true ∷ []))) web_refused

unfoldable pub web_cluster : Cluster String
web_cluster = (create_web []).1

delete_web : Result (StoreError String) (Unit {0}) × Cluster String
delete_web = delete memory_client text_quantities memory_labels node_port_config "c1" web_cluster

web_deleted : delete_web.0 ≡ ok tt
unfolding delete_web web_cluster delete single_deployment find_deployment Dcm.instance_selector
    create create_objects create_service new_container_result attempt matches has_label
    Dcm.merge_labels Dcm.labels build_deployment build_service lookup
web_deleted = rw (parse_set-set_string _) (rw (parse_set-set_string _) refl)

abbrev instances : Cluster String → List (Deployment String)
instances w = filter (λ d. matches (instance_labels "c1") d.labels) w.deployments

delete-done_example :
    ((instances delete_web.1 ≡ [])
      × (filter (λ (s : Service). matches (instance_labels "c1") s.labels) delete_web.1.services
          ≡ []))
    × ((d : Deployment String) × (instances web_cluster ≡ d ∷ [])
        × (delete_web.1.deployments ≡ without_deployment d.name web_cluster.deployments))
unfolding delete_web web_cluster delete single_deployment find_deployment Dcm.instance_selector
    create create_objects create_service new_container_result attempt matches has_label
    Dcm.merge_labels Dcm.labels build_deployment build_service lookup
delete-done_example =
    delete-done memory_client text_quantities memory_labels node_port_config memory_view memory_laws
      "c1" web_cluster web_deleted

-- The list of the services fails.
failing_cluster : Cluster String
failing_cluster = (create_web (false ∷ false ∷ false ∷ false ∷ true ∷ [])).1

abbrev delete_failing : Result (StoreError String) (Unit {0}) × Cluster String
delete_failing =
    delete memory_client text_quantities memory_labels node_port_config "c1" failing_cluster

failing_refused : delete_failing.0 ≡ err (client_error "unavailable")
unfolding failing_cluster delete single_deployment find_deployment Dcm.instance_selector create
    create_objects create_service new_container_result attempt matches has_label Dcm.merge_labels
    Dcm.labels build_deployment build_service lookup
failing_refused = rw (parse_set-set_string _) refl

delete-failed_example : SameDeployments memory_view "default" failing_cluster delete_failing.1
delete-failed_example =
    delete-failed memory_client text_quantities memory_labels node_port_config memory_view
      memory_laws "c1" (client_error "unavailable") failing_cluster failing_refused

empty-IsUnique :
    IsUnique memory_client text_quantities memory_labels node_port_config memory_view memory_laws
      memory_label_laws
      (empty_cluster [])
unfolding IsUnique
empty-IsUnique id = omega arith

web_cluster-IsUnique :
    IsUnique memory_client text_quantities memory_labels node_port_config memory_view memory_laws
      memory_label_laws web_cluster
unfolding web_cluster
web_cluster-IsUnique =
    create-IsUnique memory_client text_quantities memory_labels node_port_config memory_view
      memory_laws memory_label_laws web_spec "c1" (empty_cluster [])
      (memory-RollsBack web_spec "c1" (empty_cluster [])) empty-IsUnique

writes-IsUnique_example :
    IsUnique memory_client text_quantities memory_labels node_port_config memory_view memory_laws
      memory_label_laws
      (create memory_client text_quantities memory_labels node_port_config web_spec "c1"
        web_cluster).1
    × IsUnique memory_client text_quantities memory_labels node_port_config memory_view memory_laws
        memory_label_laws
        (delete memory_client text_quantities memory_labels node_port_config "c1" web_cluster).1
writes-IsUnique_example =
    writes-IsUnique memory_client text_quantities memory_labels node_port_config memory_view
      memory_laws memory_label_laws web_spec "c1" web_cluster
      (memory-RollsBack web_spec "c1" web_cluster) web_cluster-IsUnique
