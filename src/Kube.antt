-- ===== src/Kube.antt =====
-- What the program uses of the Kubernetes API: the fields of the objects that it reads or writes
-- (k8s.io/api), and the calls of the clientset (k8s.io/client-go). Neither is part of the repository:
-- the calls are a parameter of the components that make them.

pub mod Laws
pub mod Distinct
pub mod Memory
use k8s_container_service_pr.Base.{ℕ, String, Bool, Option, List}
use k8s_container_service_pr.Base.Int.{ℤ}
use k8s_container_service_pr.Base.Exec.{Exec}
use k8s_container_service_pr.Api.{Time, Labels}

pub record EnvVar : Type 0 where
  pub name : String
  pub value : String

pub record KubeContainer (Q : Type 0) : Type 0 where
  pub name : String
  pub image : String
  pub requests : List (String × Q)
  pub limits : List (String × Q)
  pub command : List String
  pub args : List String
  pub env : List EnvVar
  pub ports : List ℤ  -- ContainerPort of each, an int32

pub record DeploymentCondition : Type 0 where
  pub type_ : String
  pub status : String
  pub message : String
  pub last_transition_time : Time

-- The API server admits no pod template without a container: the first stands for itself.
pub record Deployment (Q : Type 0) : Type 0 where
  pub name : String
  pub generate_name : String
  pub namespace : String
  pub labels : Labels
  pub creation_timestamp : Time
  pub replicas : Option ℤ
  pub match_labels : Labels
  pub template_labels : Labels
  pub container : KubeContainer Q
  pub more_containers : List (KubeContainer Q)
  pub conditions : List DeploymentCondition
  pub updated_replicas : ℤ
  pub unavailable_replicas : ℤ

-- The reasons of a container's waiting and terminated states.
pub record ContainerState : Type 0 where
  pub waiting : Option String
  pub terminated : Option String

pub record Pod : Type 0 where
  pub name : String
  pub labels : Labels
  pub creation_timestamp : Time
  pub phase : String
  pub pod_ip : String
  pub condition_times : List Time  -- LastTransitionTime of each condition
  pub container_statuses : List ContainerState

pub record KubeServicePort : Type 0 where
  pub name : String
  pub port : ℤ
  pub target_port : ℤ  -- TargetPort.IntValue()
  pub protocol : String

pub record Service : Type 0 where
  pub name : String
  pub generate_name : String
  pub namespace : String
  pub labels : Labels
  pub type_ : String
  pub selector : Labels
  pub ports : List KubeServicePort
  pub cluster_ip : String
  pub ingress : List String  -- IP of each load balancer ingress

-- The context of a call: that of the request, or one that outlives the request, with a timeout in
-- seconds.
pub data Ctx : Type 0 where
  request : Ctx
  detached : ℕ → Ctx

-- Deletions are all with background propagation.
pub record Client (W E Q : Type 0) : Type 0 where
  pub list_deployments : Ctx → String → String → Exec W E (List (Deployment Q))
  pub create_deployment : Ctx → String → Deployment Q → Exec W E (Deployment Q)
  pub delete_deployment : Ctx → String → String → Exec W E (Unit {0})
  pub list_services : Ctx → String → String → Exec W E (List Service)
  pub create_service : Ctx → String → Service → Exec W E Service
  pub delete_service : Ctx → String → String → Exec W E (Unit {0})
  pub list_pods : Ctx → String → String → Exec W E (List Pod)
  pub server_version : Exec W E String
  -- apierrors.IsAlreadyExists(err), err.Error()
  pub is_already_exists : E → Bool
  pub error_text : E → String
  -- time.Now()
  pub now : W → Time
