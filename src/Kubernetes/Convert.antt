-- ===== src/Kubernetes/Convert.antt =====
-- internal/kubernetes/convert.go: between the API's containers and Kubernetes objects.
use k8s_container_service_pr.Base.{
  String, not, ◌&&◌, Option, none, some, List, [], ◌∷◌, map, if◌then◌else◌, ◌==◌, ◌<>◌, ltb, eqb,
  filter, is_empty, lookup,
}
use k8s_container_service_pr.Base.Int.{ℤ, pos}
use k8s_container_service_pr.Api.{
  Time, Labels, ContainerEnvVar, ContainerPort, ContainerNetwork, ContainerProcess,
  ContainerResources, Container,
}
use k8s_container_service_pr.Api.Enums.{
  ContainerStatus, pending, running, failed, unknown, visibility_none, service_type_container,
}
use k8s_container_service_pr.Dcm
use k8s_container_service_pr.Units.{QuantityLib, memory_quantity_to_api}
use k8s_container_service_pr.Kube.{EnvVar, KubeContainer, Deployment, Pod}

-- internal/kubernetes/config.go
pub record K8sConfig : Type 0 where
  pub namespace : String
  pub external_service_type : String

-- MapPodPhaseToStatus: `none` where the Go function returns ("", false).
unfoldable pub map_pod_phase_to_status : String → Option ContainerStatus
map_pod_phase_to_status phase =
    if phase == "Pending"
    then some pending
    else if phase == "Running"
    then some running
    else if phase == "Failed"
    then some failed
    else if phase == "Unknown"
    then some unknown
    else none

module _ {Q : Type 0} where
  -- userLabelsFromDeployment
  unfoldable pub user_labels_from_deployment : Deployment Q → Labels
  user_labels_from_deployment deploy = filter (λ e. not (Dcm.is_reserved e.0)) deploy.labels

abbrev non_empty {ℓ} : {A : Type ℓ} → List A → Option (List A)
non_empty [] = none
non_empty (x ∷ xs) = some (x ∷ xs)

abbrev api_env : EnvVar → ContainerEnvVar
api_env e = record { name = e.name; value = e.value; additional_properties = none }

abbrev unseen_port : ℤ → ContainerPort
unseen_port p = record {
  container_port = p;
  visibility = visibility_none;
  additional_properties = none;
}

module _ {Q : Type 0} where
  -- processFromContainer
  unfoldable pub process_from_container : KubeContainer Q → Option ContainerProcess
  process_from_container k8s_c =
      if is_empty k8s_c.command && (is_empty k8s_c.args && is_empty k8s_c.env)
      then none
      else some (record {
        args = non_empty k8s_c.args;
        command = non_empty k8s_c.command;
        env = non_empty (map api_env k8s_c.env);
        additional_properties = none;
      })

module _ {Q : Type 0} (lib : QuantityLib Q) where
  abbrev quantity_value : Option Q → ℤ
  quantity_value none = pos 0
  quantity_value (some q) = lib.value q

  abbrev quantity_memory : Option Q → String
  quantity_memory none = ""
  quantity_memory (some q) = memory_quantity_to_api lib q

  -- resourcesFromContainer
  unfoldable pub resources_from_container : KubeContainer Q → ContainerResources
  resources_from_container k8s_c = record {
    cpu = record {
      max = quantity_value (lookup "cpu" k8s_c.limits);
      min = quantity_value (lookup "cpu" k8s_c.requests);
      additional_properties = none;
    };
    memory = record {
      max = quantity_memory (lookup "memory" k8s_c.limits);
      min = quantity_memory (lookup "memory" k8s_c.requests);
      additional_properties = none;
    };
    additional_properties = none;
  }

  -- The network of the result has only ports, with no visibility yet, and is nil without them.
  abbrev network_from_ports : List ℤ → Option ContainerNetwork
  network_from_ports [] = none
  network_from_ports (p ∷ ps) =
      some (record {
        ip = none;
        ports = some (map unseen_port (p ∷ ps));
        additional_properties = none;
      })

  -- containerFromDeployment
  unfoldable pub container_from_deployment : Deployment Q → String → Container
  unfolding process_from_container resources_from_container user_labels_from_deployment
  container_from_deployment deploy instance_id =
      let k8s_c = deploy.container in
      record {
        create_time = some deploy.creation_timestamp;
        id = some instance_id;
        path = some ("containers/" <> instance_id);
        service = none;
        spec = record {
          image = record { reference = k8s_c.image; additional_properties = none };
          metadata = record {
            labels = non_empty (user_labels_from_deployment deploy);
            name = deploy.name;
            namespace = some deploy.namespace;
          };
          network = network_from_ports k8s_c.ports;
          process = process_from_container k8s_c;
          provider_hints = none;
          resources = resources_from_container k8s_c;
          service_type = service_type_container;
        };
        status = none;
        update_time = none;
      }

-- The loop of latestPodTransitionTime and of latestDeploymentTransitionTime, from a latest time so
-- far; the zero time is skipped.
latest_of : Option Time → List Time → Option Time
latest_of latest [] = latest
latest_of none (t ∷ ts) = latest_of (if eqb t 0 then none else some t) ts
latest_of (some l) (t ∷ ts) = latest_of (some (if eqb t 0 then l else if ltb l t then t else l)) ts

unfoldable pub latest_pod_transition_time : Pod → Option Time
unfolding latest_of
latest_pod_transition_time pod = latest_of none pod.condition_times

unfoldable pub latest_deployment_transition_time : {Q : Type 0} → Deployment Q → Option Time
unfolding latest_of
latest_deployment_transition_time deploy =
    latest_of none (map (λ c. c.last_transition_time) deploy.conditions)
