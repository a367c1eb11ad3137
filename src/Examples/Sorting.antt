-- ===== src/Examples/Sorting.antt =====
-- The sort of three deployments by name.
use k8s_container_service_pr.Base.{String, List, [], ◌∷◌, ◌≡◌, refl}
use k8s_container_service_pr.Kube.{Deployment}
use k8s_container_service_pr.Kubernetes.Build.{build_deployment}
use k8s_container_service_pr.Kubernetes.Paging.{sort_by_name}
use k8s_container_service_pr.Examples.Fixtures.{text_quantities, node_port_config, web_spec}

abbrev named : String → Deployment String
named name = record (build_deployment text_quantities web_spec "c1" node_port_config []) {
  name = name;
}

abbrev three : List (Deployment String)
three = named "web-b" ∷ named "web-c" ∷ named "web-a" ∷ []

three_sorted : sort_by_name three ≡ named "web-a" ∷ named "web-b" ∷ named "web-c" ∷ []
unfolding sort_by_name
three_sorted = refl
