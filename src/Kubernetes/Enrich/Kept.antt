-- ===== src/Kubernetes/Enrich/Kept.antt =====
-- What the enrichment of a container from pods and services leaves alone.
use k8s_container_service_pr.Base.{
  String, Bool, true, false, Option, none, some, ◌≡◌, refl, ◌∙◌, if◌then◌else◌, is_nil,
}
use k8s_container_service_pr.Api.{Container, Time}
use k8s_container_service_pr.Api.Enums.{ContainerStatus}
use k8s_container_service_pr.Kube.{Pod, Service}
use k8s_container_service_pr.Kubernetes.Convert.{
  map_pod_phase_to_status, latest_pod_transition_time,
}
use k8s_container_service_pr.Kubernetes.Enrich.{
  enrich_with_pod, enrich_with_service, set_status, set_ip, set_update_time,
}

-- The identifier, the path, the time of creation, and of the specification all but the network.
abbrev pub Kept : Container → Container → Type 0
Kept c d =
    (d.id ≡ c.id)
    × (d.path ≡ c.path)
    × (d.create_time ≡ c.create_time)
    × (d.spec.image ≡ c.spec.image)
    × (d.spec.metadata ≡ c.spec.metadata)
    × (d.spec.process ≡ c.spec.process)
    × (d.spec.resources ≡ c.spec.resources)

pub Kept-refl : (c : Container) → Kept c c
Kept-refl c = (refl, refl, refl, refl, refl, refl, refl)

pub Kept-trans : (c d e : Container) → Kept c d → Kept d e → Kept c e
Kept-trans c d e f g = (g.0 ∙ f.0, g.1 ∙ f.1, g.2 ∙ f.2, g.3 ∙ f.3, g.4 ∙ f.4, g.5 ∙ f.5, g.6 ∙ f.6)

set_status-Kept : (s : Option ContainerStatus) (c : Container) → Kept c (set_status s c)
set_status-Kept none c = Kept-refl c
set_status-Kept (some s) c = Kept-refl c

set_update_time-Kept : (t : Option Time) (c : Container) → Kept c (set_update_time t c)
set_update_time-Kept none c = Kept-refl c
set_update_time-Kept (some t) c = Kept-refl c

if-Kept : (b : Bool) (c d e : Container) → Kept c d → Kept c e → Kept c (if b then d else e)
if-Kept true c d e f g = f
if-Kept false c d e f g = g

set_ip-Kept : (ip : String) (c : Container) → Kept c (set_ip ip c)
set_ip-Kept ip c = if-Kept (is_nil ip) c _ _ (Kept-refl c) (Kept-refl c)

pub enrich_with_pod-Kept : (c : Container) (pod : Pod) → Kept c (enrich_with_pod c pod)
unfolding enrich_with_pod
enrich_with_pod-Kept c pod =
    let c1 = set_status (map_pod_phase_to_status pod.phase) c in
    let c2 = set_ip pod.pod_ip c1 in
    let c3 = set_update_time (latest_pod_transition_time pod) c2 in
    Kept-trans c c1 c3 (set_status-Kept (map_pod_phase_to_status pod.phase) c) (
      Kept-trans c1 c2 c3 (set_ip-Kept pod.pod_ip c1)
        (set_update_time-Kept (latest_pod_transition_time pod) c2))

pub enrich_with_service-Kept : (c : Container) (svc : Service) → Kept c (enrich_with_service c svc)
unfolding enrich_with_service
enrich_with_service-Kept c svc = Kept-refl c
