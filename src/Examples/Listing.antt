-- ===== src/Examples/Listing.antt =====
-- Get and List over a cluster in memory with one container.
use k8s_container_service_pr.Base.{
  length, ◌<◌, arith, none, String, ◌≡◌, refl, Result, ok, err, lookup,
}
use k8s_container_service_pr.Api.{ContainerList}
use k8s_container_service_pr.Dcm
use k8s_container_service_pr.Dcm.{instance_labels, matches, has_label}
use k8s_container_service_pr.Kube.{request}
use k8s_container_service_pr.Kube.Laws.{SameObjects}
use k8s_container_service_pr.Kube.Memory.{Cluster, memory_client, memory_view, attempt}
use k8s_container_service_pr.Kube.Memory.Selectors.{memory_labels, parse_set-set_string}
use k8s_container_service_pr.Kube.Memory.Lawful.{memory_laws}
use k8s_container_service_pr.Kubernetes.Build.{build_deployment, build_service}
use k8s_container_service_pr.Kubernetes.Store.{
  build_container, enrich_from_cluster, enrich_with_pods, StoreError, create, create_objects,
  create_service, new_container_result,
}
use k8s_container_service_pr.Base.Int.{pos}
use k8s_container_service_pr.Kubernetes.Paging.{
  list, list_from, build_containers, decode_page_token, page_size, page_of, sort_by_name,
}
use k8s_container_service_pr.Kubernetes.Paging.Answer.{IsPage, list-IsPage}
use k8s_container_service_pr.Kube.Distinct.{Distinct}
use k8s_container_service_pr.Examples.Fixtures.{text_quantities, node_port_config}
use k8s_container_service_pr.Kubernetes.Store.{get}
use k8s_container_service_pr.Kubernetes.Paging.Reads.{reads-SameObjects}
use k8s_container_service_pr.Examples.Store.{web_cluster}

abbrev no_list : ContainerList
no_list = record { containers = none; next_page_token = none }

abbrev value_of : Result (StoreError String) ContainerList → ContainerList
value_of (ok l) = l
value_of (err e) = no_list

abbrev list_web : Result (StoreError String) ContainerList × Cluster String
list_web = list memory_client text_quantities memory_labels node_port_config (pos 0) "" web_cluster

web_managed :
    (memory_client.list_deployments request "default" (Dcm.selector memory_labels) web_cluster).0
    ≡ ok web_cluster.deployments
unfolding web_cluster Dcm.selector create create_objects create_service new_container_result attempt
    matches has_label Dcm.merge_labels Dcm.labels build_deployment build_service lookup
web_managed = rw (parse_set-set_string _) refl

web_list : list_web.0 ≡ ok (value_of list_web.0)
unfolding web_cluster list decode_page_token list_from build_containers build_container
    enrich_from_cluster enrich_with_pods sort_by_name page_of page_size Dcm.selector
    Dcm.instance_selector create create_objects create_service new_container_result attempt matches
    has_label Dcm.merge_labels Dcm.labels build_deployment build_service lookup
web_list = rw (parse_set-set_string _) (rw (parse_set-set_string _) refl)

first_token : decode_page_token {E = String} "" ≡ ok 0
unfolding decode_page_token
first_token = refl

web_cluster-Distinct : Distinct web_cluster.deployments
unfolding web_cluster create create_objects create_service new_container_result attempt
web_cluster-Distinct = (tt, tt)

web_few : length web_cluster.deployments < 9223372036854775808
unfolding web_cluster create create_objects create_service new_container_result attempt
web_few = omega arith

list-IsPage_example :
    IsPage memory_client text_quantities memory_labels node_port_config
      (pos 0)
      0
      web_cluster.deployments
      (value_of list_web.0)
list-IsPage_example =
    list-IsPage memory_client text_quantities memory_labels node_port_config (pos 0) "" web_cluster
      0 web_cluster.deployments (value_of list_web.0) first_token web_managed web_cluster-Distinct
      web_few web_list

reads-SameObjects_example :
    SameObjects memory_view "default" web_cluster
      (get memory_client text_quantities memory_labels node_port_config "c1" web_cluster).1
    × SameObjects memory_view "default" web_cluster list_web.1
reads-SameObjects_example =
    reads-SameObjects memory_client text_quantities memory_labels node_port_config memory_view
      memory_laws "c1" (pos 0) "" web_cluster
