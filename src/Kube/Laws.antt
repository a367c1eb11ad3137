-- ===== src/Kube/Laws.antt =====
-- What the store relies on of the Kubernetes API, beyond its types: what the calls of the client do
-- to the objects of a namespace while nobody else writes there. An answer that is an error stands
-- for a call that has changed nothing.
use k8s_container_service_pr.Base.{
  String, Bool, not, List, ◌∷◌, ◌++◌, ◌==◌, ◌≡◌, filter, All, ok, err,
}
use k8s_container_service_pr.Api.{Labels}
use k8s_container_service_pr.Dcm.{LabelLib, matches}
use k8s_container_service_pr.Kube.{Ctx, Deployment, Pod, Service, Client}

-- The objects that are in a namespace of a world.
pub record View (W Q : Type 0) : Type 0 where
  pub deployments : W → String → List (Deployment Q)
  pub services : W → String → List Service
  pub pods : W → String → List Pod

module _ {W Q : Type 0} (v : View W Q) where
  abbrev pub SameDeployments : String → W → W → Type 0
  SameDeployments ns w w' = v.deployments w' ns ≡ v.deployments w ns

  abbrev pub SameServices : String → W → W → Type 0
  SameServices ns w w' = v.services w' ns ≡ v.services w ns

  abbrev pub SamePods : String → W → W → Type 0
  SamePods ns w w' = v.pods w' ns ≡ v.pods w ns

  abbrev pub SameObjects : String → W → W → Type 0
  SameObjects ns w w' = SameDeployments ns w w' × SameServices ns w w' × SamePods ns w w'

-- The second list is the first with one element more, at some place.
abbrev pub Inserted : {A : Type 0} → A → List A → List A → Type 0
Inserted {A} x xs ys = (before after : List A) × (xs ≡ before ++ after) × (ys ≡ before ++ x ∷ after)

-- What the API server keeps of a deployment that it is given.
abbrev pub SameDeployment : {Q : Type 0} → Deployment Q → Deployment Q → Type 0
SameDeployment d d' =
    (d'.labels ≡ d.labels)
    × (d'.container ≡ d.container)
    × (d'.replicas ≡ d.replicas)
    × (d'.namespace ≡ d.namespace)

abbrev pub SameService : Service → Service → Type 0
SameService s s' =
    (s'.labels ≡ s.labels)
    × (s'.type_ ≡ s.type_)
    × (s'.selector ≡ s.selector)
    × (s'.ports ≡ s.ports)

abbrev pub without_deployment : {Q : Type 0} → String → List (Deployment Q) → List (Deployment Q)
without_deployment name = filter (λ d. not (d.name == name))

abbrev pub without_service : String → List Service → List Service
without_service name = filter (λ s. not (s.name == name))

pub record ClientLaws {W E Q : Type 0} (c : Client W E Q) (lib : LabelLib) (v : View W Q)
    : Type 0 where
  pub list_deployments-found :
      (ctx : Ctx) (ns : String) (sel : Labels) (w : W) (ds : List (Deployment Q))
      → (c.list_deployments ctx ns (lib.set_string sel) w).0 ≡ ok ds
      → ds ≡ filter (λ d. matches sel d.labels) (v.deployments w ns)
  pub list_deployments-keeps :
      (ctx : Ctx) (ns sel : String) (w : W) → SameObjects v ns w (c.list_deployments ctx ns sel w).1
  pub list_services-found :
      (ctx : Ctx) (ns : String) (sel : Labels) (w : W) (ss : List Service)
      → (c.list_services ctx ns (lib.set_string sel) w).0 ≡ ok ss
      → ss ≡ filter (λ s. matches sel s.labels) (v.services w ns)
  pub list_services-keeps :
      (ctx : Ctx) (ns sel : String) (w : W) → SameObjects v ns w (c.list_services ctx ns sel w).1
  pub list_pods-found :
      (ctx : Ctx) (ns : String) (sel : Labels) (w : W) (ps : List Pod)
      → (c.list_pods ctx ns (lib.set_string sel) w).0 ≡ ok ps
      → ps ≡ filter (λ p. matches sel p.labels) (v.pods w ns)
  pub list_pods-keeps :
      (ctx : Ctx) (ns sel : String) (w : W) → SameObjects v ns w (c.list_pods ctx ns sel w).1
  pub server_version-keeps : (ns : String) (w : W) → SameObjects v ns w (c.server_version w).1
  pub create_deployment-done :
      (ctx : Ctx) (ns : String) (d d' : Deployment Q) (w : W)
      → (c.create_deployment ctx ns d w).0 ≡ ok d'
      → SameDeployment d d'
        × All (λ (e : Deployment Q). (e.name == d'.name) ≡ Bool.false) (v.deployments w ns)
        × Inserted d' (v.deployments w ns) (v.deployments (c.create_deployment ctx ns d w).1 ns)
        × SameServices v ns w (c.create_deployment ctx ns d w).1
  pub create_deployment-failed :
      (ctx : Ctx) (ns : String) (d : Deployment Q) (w : W) (e : E)
      → (c.create_deployment ctx ns d w).0 ≡ err e
      → SameDeployments v ns w (c.create_deployment ctx ns d w).1
        × SameServices v ns w (c.create_deployment ctx ns d w).1
  pub delete_deployment-done :
      (ctx : Ctx) (ns name : String) (w : W)
      → (c.delete_deployment ctx ns name w).0 ≡ ok tt
      → (v.deployments (c.delete_deployment ctx ns name w).1 ns
          ≡ without_deployment name (v.deployments w ns))
        × SameServices v ns w (c.delete_deployment ctx ns name w).1
  pub delete_deployment-failed :
      (ctx : Ctx) (ns name : String) (w : W) (e : E)
      → (c.delete_deployment ctx ns name w).0 ≡ err e
      → SameDeployments v ns w (c.delete_deployment ctx ns name w).1
        × SameServices v ns w (c.delete_deployment ctx ns name w).1
  pub create_service-done :
      (ctx : Ctx) (ns : String) (s s' : Service) (w : W)
      → (c.create_service ctx ns s w).0 ≡ ok s'
      → SameService s s'
        × Inserted s' (v.services w ns) (v.services (c.create_service ctx ns s w).1 ns)
        × SameDeployments v ns w (c.create_service ctx ns s w).1
  pub create_service-failed :
      (ctx : Ctx) (ns : String) (s : Service) (w : W) (e : E)
      → (c.create_service ctx ns s w).0 ≡ err e
      → SameDeployments v ns w (c.create_service ctx ns s w).1
        × SameServices v ns w (c.create_service ctx ns s w).1
  pub delete_service-done :
      (ctx : Ctx) (ns name : String) (w : W)
      → (c.delete_service ctx ns name w).0 ≡ ok tt
      → (v.services (c.delete_service ctx ns name w).1 ns ≡ without_service name (v.services w ns))
        × SameDeployments v ns w (c.delete_service ctx ns name w).1
  pub delete_service-failed :
      (ctx : Ctx) (ns name : String) (w : W) (e : E)
      → (c.delete_service ctx ns name w).0 ≡ err e
      → SameDeployments v ns w (c.delete_service ctx ns name w).1
        × SameServices v ns w (c.delete_service ctx ns name w).1
