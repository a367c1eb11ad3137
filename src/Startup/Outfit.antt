-- ===== src/Startup/Outfit.antt =====
-- What run needs of the libraries before it serves.
use k8s_container_service_pr.Base.{
  String, Bool, true, false, not, ◌&&◌, ◌||◌, Option, none, some, ◌==◌, if◌then◌else◌, is_nil,
  is_some, Result, ok, err,
}
use k8s_container_service_pr.Config.{Config}
use k8s_container_service_pr.Registration.{Url, Backoffs}
use k8s_container_service_pr.Kubernetes.Client.{ClientGo}
use k8s_container_service_pr.Startup.{World}

abbrev pub is_ok : {A : Type 0} → Result String A → Bool
is_ok (ok a) = true
is_ok (err e) = false

-- The URL of the control plane is parsed, with a scheme and a host.
abbrev pub is_absolute : Option Url → Bool
is_absolute none = false
is_absolute (some u) = not (is_nil u.scheme) && not (is_nil u.host)

-- A configuration is found, at its path or, without a path, in the cluster, and a clientset is made of it.
abbrev pub reaches_cluster : {K C : Type 0} → ClientGo K C → String → Bool
reaches_cluster {K = K} lib kubeconfig =
    makes
      (if is_nil kubeconfig then lib.in_cluster_config else lib.build_config_from_flags kubeconfig)
  where
    makes : Result String K → Bool
    makes (ok k) = is_ok (lib.new_for_config k)
    makes (err e) = false

abbrev pub first_backoffs : Backoffs
first_backoffs = record { initial = 1000; maximum = 60000 }

module _ {K C : Type 0} where
  -- A configuration with which every step before the server succeeds.
  abbrev pub is_fit : World K C → Config → Bool
  is_fit world cfg =
      (cfg.kubernetes.external_service_type == "LoadBalancer"
        || cfg.kubernetes.external_service_type == "NodePort")
      && not (is_some (world.listen cfg.server.address))
      && (is_absolute (world.parse_url cfg.registration_url)
          && not (is_some (world.new_dcm_client cfg.registration_url)))
      && not (is_some (world.connect cfg.nats_url))
      && reaches_cluster world.client_go cfg.kubernetes.kubeconfig

  abbrev pub outfit : World K C → Option (Config × Backoffs)
  outfit world = elim world.parsed [
    | ok cfg ↦ if is_fit world cfg then some (cfg, first_backoffs) else none
    | err e ↦ none
  ]
