-- ===== src/Kubernetes/Client.antt =====
-- internal/kubernetes/client.go: the construction of a clientset. The configurations and the clientset
-- are client-go's.
use k8s_container_service_pr.Base.{String, ◌<>◌, is_nil, if◌then◌else◌, Result, ok, err}

-- BuildConfigFromFlags, InClusterConfig and NewForConfig.
pub record ClientGo (K C : Type 0) : Type 0 where
  pub build_config_from_flags : String → Result String K
  pub in_cluster_config : Result String K
  pub new_for_config : K → Result String C

abbrev made_client : {C : Type 0} → Result String C → Result String C
made_client (ok c) = ok c
made_client (err e) = err ("creating kubernetes client: " <> e)

abbrev configured : {K C : Type 0} → ClientGo K C → Result String K → Result String C
configured lib (ok k) = made_client (lib.new_for_config k)
configured lib (err e) = err ("building kubernetes config: " <> e)

-- NewClient
unfoldable pub new_client : {K C : Type 0} → ClientGo K C → String → Result String C
new_client lib kubeconfig =
    configured lib
      (if is_nil kubeconfig then lib.in_cluster_config else lib.build_config_from_flags kubeconfig)
