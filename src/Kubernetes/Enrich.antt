-- ===== src/Kubernetes/Enrich.antt =====
-- The second half of internal/kubernetes/convert.go: what the cluster's pods and services add to a
-- container.
pub mod Kept
use k8s_container_service_pr.Base.{
  String, ◌||◌, Option, none, some, List, [], ◌∷◌, map, if◌then◌else◌, ◌==◌, any, is_nil,
}
use k8s_container_service_pr.Base.Int.{eqb_ℤ}
use k8s_container_service_pr.Api.{
  Time, ContainerPort, ContainerNetwork, ServicePort, ServiceInfo, Container,
}
use k8s_container_service_pr.Api.Enums.{
  ContainerPortVisibility, ContainerStatus, visibility_external, visibility_internal, load_balancer,
  node_port,
}
use k8s_container_service_pr.Kube.{Pod, KubeServicePort, Service}
use k8s_container_service_pr.Kubernetes.Convert.{
  map_pod_phase_to_status, latest_pod_transition_time,
}

abbrev pub set_status : Option ContainerStatus → Container → Container
set_status none c = c
set_status (some s) c = record c { status = some s }

-- The network that a pod's address is written to: a fresh one where there is none.
abbrev pub network_or_new : Option ContainerNetwork → ContainerNetwork
network_or_new none = record { ip = none; ports = none; additional_properties = none }
network_or_new (some n) = n

abbrev pub set_network : Option ContainerNetwork → Container → Container
set_network n c = record c { spec = record c.spec { network = n } }

abbrev pub set_ip : String → Container → Container
set_ip ip c =
    if is_nil ip
    then c
    else set_network (some (record (network_or_new c.spec.network) { ip = some ip })) c

abbrev pub set_update_time : Option Time → Container → Container
set_update_time none c = c
set_update_time (some t) c = record c { update_time = some t }

-- enrichWithPod
unfoldable pub enrich_with_pod : Container → Pod → Container
unfolding map_pod_phase_to_status latest_pod_transition_time
enrich_with_pod container pod =
    let c = set_status (map_pod_phase_to_status pod.phase) container in
    let d = set_ip pod.pod_ip c in set_update_time (latest_pod_transition_time pod) d

-- inferVisibility
unfoldable pub infer_visibility : String → ContainerPortVisibility
infer_visibility svc_type =
    if svc_type == load_balancer || svc_type == node_port
    then visibility_external
    else visibility_internal

abbrev text_option : String → Option String
text_option s = if is_nil s then none else some s

abbrev api_port : KubeServicePort → ServicePort
api_port p = record { port = p.port; protocol = some p.protocol; target_port = p.target_port }

abbrev ports_option : List KubeServicePort → Option (List ServicePort)
ports_option [] = none
ports_option (p ∷ ps) = some (map api_port (p ∷ ps))

abbrev first_ip : List String → Option String
first_ip [] = none
first_ip (ip ∷ ips) = text_option ip

unfoldable pub service_info : Service → ServiceInfo
service_info svc = record {
  cluster_ip = text_option svc.cluster_ip;
  external_ip = first_ip svc.ingress;
  name = some svc.name;
  ports = ports_option svc.ports;
  type_ = some svc.type_;
}

-- A port that is a target of the service gets the visibility; the others keep theirs.
unfoldable pub infer_port :
    ContainerPortVisibility → List KubeServicePort → ContainerPort → ContainerPort
infer_port visibility svc_ports p =
    if any (λ s. eqb_ℤ s.target_port p.container_port) svc_ports
    then record p { visibility = visibility }
    else p

abbrev infer_ports :
    ContainerPortVisibility
    → List KubeServicePort
    → Option (List ContainerPort)
    → Option (List ContainerPort)
infer_ports visibility svc_ports none = none
infer_ports visibility svc_ports (some ps) = some (map (infer_port visibility svc_ports) ps)

abbrev infer_network :
    ContainerPortVisibility
    → List KubeServicePort
    → Option ContainerNetwork
    → Option ContainerNetwork
infer_network visibility svc_ports none = none
infer_network visibility svc_ports (some n) =
    some (record n { ports = infer_ports visibility svc_ports n.ports })

-- enrichWithService
unfoldable pub enrich_with_service : Container → Service → Container
unfolding infer_visibility service_info
enrich_with_service container svc =
    let c = record container { service = some (service_info svc) } in
    set_network (infer_network (infer_visibility svc.type_) svc.ports container.spec.network) c
