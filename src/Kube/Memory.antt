-- ===== src/Kube/Memory.antt =====
-- A Kubernetes API in memory, of one namespace: the example at which the laws of the client hold. A
-- call in the request's context fails where the list of faults says so.
pub mod Selectors
pub mod Lawful
use k8s_container_service_pr.Base.{
  ℕ, String, Bool, true, false, not, List, [], ◌∷◌, map, ◌==◌, ◌<>◌, if◌then◌else◌, filter, Result,
  ok, err,
}
use k8s_container_service_pr.Base.Exec.{Exec}
use k8s_container_service_pr.Dcm.{matches}
use k8s_container_service_pr.Kube.{Ctx, request, detached, Deployment, Pod, Service, Client}
use k8s_container_service_pr.Kube.Laws.{View}
use k8s_container_service_pr.Kube.Memory.Selectors.{parse_set}

pub record Cluster (Q : Type 0) : Type 0 where
  pub deployments : List (Deployment Q)
  pub services : List Service
  pub pods : List Pod
  pub faults : List Bool

abbrev pub next_fault : Ctx → List Bool → Bool
next_fault (detached s) faults = false
next_fault request [] = false
next_fault request (b ∷ bs) = b

abbrev rest_faults : Ctx → List Bool → List Bool
rest_faults (detached s) faults = faults
rest_faults request [] = []
rest_faults request (b ∷ bs) = bs

abbrev advance : {Q : Type 0} → Ctx → Cluster Q → Cluster Q
advance ctx w = record w { faults = rest_faults ctx w.faults }

-- A call that fails where a fault is due, and else answers and changes the cluster.
unfoldable pub attempt :
    {Q A : Type 0} → Ctx → A → Cluster Q → Cluster Q → Result String A × Cluster Q
attempt ctx a w w' =
    if next_fault ctx w.faults then (err "unavailable", advance ctx w) else (ok a, w')

-- A text longer than each of a list.
abbrev all_of : List String → String
all_of [] = "x"
all_of (s ∷ ss) = s <> all_of ss

abbrev named : {Q : Type 0} → List (Deployment Q) → Deployment Q → Deployment Q
named ds d = record d { name = d.generate_name <> all_of (map (λ e. e.name) ds) }

abbrev named_service : List Service → Service → Service
named_service ss s = record s { name = s.generate_name <> all_of (map (λ e. e.name) ss) }

module _ {Q : Type 0} where
  abbrev pub memory_client : Client (Cluster Q) String Q
  memory_client = record {
    list_deployments = λ ctx ns sel w.
        attempt ctx (filter (λ d. matches (parse_set sel) d.labels) w.deployments) w
          (advance ctx w);
    create_deployment = λ ctx ns d w.
        let d' = named w.deployments d in
        attempt ctx d' w (record (advance ctx w) { deployments = d' ∷ w.deployments });
    delete_deployment = λ ctx ns name w.
        attempt ctx tt w (record (advance ctx w) {
          deployments = filter (λ d. not (d.name == name)) w.deployments;
        });
    list_services = λ ctx ns sel w.
        attempt ctx (filter (λ s. matches (parse_set sel) s.labels) w.services) w (advance ctx w);
    create_service = λ ctx ns s w.
        let s' = named_service w.services s in
        attempt ctx s' w (record (advance ctx w) { services = s' ∷ w.services });
    delete_service = λ ctx ns name w.
        attempt ctx tt w
          (record (advance ctx w) { services = filter (λ s. not (s.name == name)) w.services });
    list_pods = λ ctx ns sel w.
        attempt ctx (filter (λ p. matches (parse_set sel) p.labels) w.pods) w (advance ctx w);
    server_version = λ w. attempt request "v1" w (advance request w);
    is_already_exists = λ e. e == "already exists";
    error_text = λ e. e;
    now = λ w. 1;
  }

  abbrev pub memory_view : View (Cluster Q) Q
  memory_view = record {
    deployments = λ w ns. w.deployments;
    services = λ w ns. w.services;
    pods = λ w ns. w.pods;
  }
