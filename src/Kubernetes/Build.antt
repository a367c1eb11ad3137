-- ===== src/Kubernetes/Build.antt =====
-- The third part of internal/kubernetes/convert.go: the objects of a new container; and the choice
-- of ports and of a service type in internal/kubernetes/store_create.go.
pub mod RoundTrip
use k8s_container_service_pr.Base.{
  String, Bool, not, Option, none, some, List, [], ◌∷◌, map, if◌then◌else◌, ◌==◌, ◌<>◌, any, filter,
  Result, ok, err,
}
use k8s_container_service_pr.Base.Int.{ℤ, pos, int32, itoa_ℤ}
use k8s_container_service_pr.Api.{
  Labels, ContainerEnvVar, ContainerPort, ContainerProcess, ContainerSpec,
}
use k8s_container_service_pr.Api.Enums.{visibility_none, visibility_external, cluster_ip}
use k8s_container_service_pr.Dcm
use k8s_container_service_pr.Units.{QuantityLib, convert_cpu, convert_memory}
use k8s_container_service_pr.Kube.{EnvVar, KubeContainer, Deployment, KubeServicePort, Service}
use k8s_container_service_pr.Kubernetes.Convert.{K8sConfig}

abbrev list_of {ℓ} : {A : Type ℓ} → Option (List A) → List A
list_of none = []
list_of (some xs) = xs

-- The ports of a spec: none without a network or without its ports.
unfoldable pub spec_ports : ContainerSpec → List ContainerPort
spec_ports spec = elim spec.network [ none ↦ [] | some n ↦ list_of n.ports ]

-- portsWithVisibility; nil and the empty slice are one list.
unfoldable pub ports_with_visibility : ContainerSpec → List ContainerPort
unfolding spec_ports
ports_with_visibility spec = filter (λ p. not (p.visibility == visibility_none)) (spec_ports spec)

-- hasExternalPort
unfoldable pub has_external_port : List ContainerPort → Bool
has_external_port ports = any (λ p. p.visibility == visibility_external) ports

-- resolveServiceType
unfoldable pub resolve_service_type : K8sConfig → List ContainerPort → String
unfolding has_external_port
resolve_service_type cfg ports =
    if has_external_port ports then cfg.external_service_type else cluster_ip

abbrev kube_env : ContainerEnvVar → EnvVar
kube_env e = record { name = e.name; value = e.value }

abbrev process_command : Option ContainerProcess → List String
process_command none = []
process_command (some p) = list_of p.command

abbrev process_args : Option ContainerProcess → List String
process_args none = []
process_args (some p) = list_of p.args

abbrev process_env : Option ContainerProcess → List EnvVar
process_env none = []
process_env (some p) = map kube_env (list_of p.env)

abbrev kube_port : ContainerPort → ℤ
kube_port p = int32 p.container_port

module _ {Q : Type 0} (lib : QuantityLib Q) where
  open lib use {zero_quantity}

  -- `q, _ := units.ConvertMemory(s)`: the zero quantity beside an error.
  abbrev memory_or_zero : Result String Q → Q
  memory_or_zero (ok q) = q
  memory_or_zero (err e) = zero_quantity

  -- The container of the pod template.
  unfoldable pub build_container : ContainerSpec → KubeContainer Q
  unfolding convert_cpu spec_ports
  build_container spec =
      let (cpu_req, cpu_lim) = convert_cpu lib spec.resources.cpu in
      let mem_req = memory_or_zero (convert_memory lib spec.resources.memory.min) in
      let mem_lim = memory_or_zero (convert_memory lib spec.resources.memory.max) in
      record {
        name = spec.metadata.name;
        image = spec.image.reference;
        requests = ("cpu", cpu_req) ∷ ("memory", mem_req) ∷ [];
        limits = ("cpu", cpu_lim) ∷ ("memory", mem_lim) ∷ [];
        command = process_command spec.process;
        args = process_args spec.process;
        env = process_env spec.process;
        ports = map kube_port (spec_ports spec);
      }

  -- buildDeployment. The name, the timestamp and the status are left to the API server.
  unfoldable pub build_deployment : ContainerSpec → String → K8sConfig → Labels → Deployment Q
  unfolding build_container
  build_deployment spec id cfg labels = record {
    name = "";
    generate_name = spec.metadata.name <> "-";
    namespace = cfg.namespace;
    labels = labels;
    creation_timestamp = 0;
    replicas = some (pos 1);
    match_labels = Dcm.labels id;
    template_labels = labels;
    container = build_container spec;
    more_containers = [];
    conditions = [];
    updated_replicas = pos 0;
    unavailable_replicas = pos 0;
  }

abbrev service_port : ContainerPort → KubeServicePort
service_port p = record {
  name = "port-" <> itoa_ℤ p.container_port;
  port = int32 p.container_port;
  target_port = int32 p.container_port;
  protocol = "TCP";
}

-- buildService
unfoldable pub build_service :
    ContainerSpec → String → K8sConfig → Labels → String → List ContainerPort → Service
build_service spec id cfg labels svc_type service_ports = record {
  name = "";
  generate_name = spec.metadata.name <> "-";
  namespace = cfg.namespace;
  labels = labels;
  type_ = svc_type;
  selector = Dcm.labels id;
  ports = map service_port service_ports;
  cluster_ip = "";
  ingress = [];
}
