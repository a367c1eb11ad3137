-- ===== src/Kubernetes/Store/Create.antt =====
-- Create of internal/kubernetes/store_create.go: what it leaves in the cluster, on every path.
use k8s_container_service_pr.Base.{
  String, false, List, [], ◌∷◌, ◌==◌, ◌<>◌, ◌≡◌, ◌≢◌, refl, sym, ◌∙◌, inl, inr, quote, filter, All,
  ok, err, Result-cases,
}
use mathlib.Core.Path.{subst}
use k8s_container_service_pr.Api.{Labels, ContainerSpec, ContainerPort, Container}
use k8s_container_service_pr.Dcm
use k8s_container_service_pr.Dcm.{LabelLib, instance_labels, matches}
use k8s_container_service_pr.Units.{QuantityLib}
use k8s_container_service_pr.Kube.{Deployment, Service, Client, request}
use k8s_container_service_pr.Kube.Laws.{
  View, SameDeployments, SameObjects, Inserted, SameDeployment, SameService, ClientLaws,
}
use k8s_container_service_pr.Kubernetes.Convert.{K8sConfig}
use k8s_container_service_pr.Kubernetes.Build.{
  ports_with_visibility, resolve_service_type, build_deployment, build_service,
}
use k8s_container_service_pr.Kubernetes.Store.{
  conflict_error, new_container_result, create, create_objects, create_service, create_labels,
}

err≢ok : {E A : Type 0} {e : E} {a : A} → err e ≡ ok a → ⊥
err≢ok h = cc

-- The services of a namespace before and after a container is made: the same without ports to
-- expose, and else one more, which the API server has made of buildService.
abbrev pub ServiceMade :
    K8sConfig
    → ContainerSpec
    → String
    → Labels
    → List ContainerPort
    → List Service
    → List Service
    → Type 0
ServiceMade cfg spec id labels [] before after = after ≡ before
ServiceMade cfg spec id labels (p ∷ ps) before after =
    (s : Service) × SameService
      (build_service spec id cfg labels (resolve_service_type cfg (p ∷ ps)) (p ∷ ps)) s
    × Inserted s before after

module _ {W E Q : Type 0} (client : Client W E Q) (quantities : QuantityLib Q)
    (labels_lib : LabelLib) (cfg : K8sConfig) (view : View W Q)
    (laws : ClientLaws client labels_lib view) where
  open client use {
    list_deployments as list_d, create_deployment as create_d, create_service as create_s,
    delete_deployment as delete_d,
  }

  abbrev pub ns : String
  ns = cfg.namespace

  -- The deployments that findDeployment and Create take for those of an instance.
  abbrev instances : String → W → List (Deployment Q)
  instances id w = filter (λ d. matches (instance_labels id) d.labels) (view.deployments w ns)

  -- Create on an instance ID that has a deployment: a conflict, and nothing is changed.
  pub create-conflict :
      (spec : ContainerSpec) (id : String) (w : W) (ds : List (Deployment Q))
      → (list_d request ns (Dcm.instance_selector labels_lib id) w).0 ≡ ok ds
      → instances id w ≢ []
      → ((create client quantities labels_lib cfg spec id w).0
          ≡ err (conflict_error ("container with instance ID " <> (quote id <> " already exists"))))
        × SameObjects view ns w (create client quantities labels_lib cfg spec id w).1
  unfolding create Dcm.instance_selector
  create-conflict spec id w [] listed found =
      absurd (found (sym (laws.list_deployments-found request ns (instance_labels id) w [] listed)))
  create-conflict spec id w (d ∷ ds) listed found =
      rw listed
        (refl, laws.list_deployments-keeps request ns (Dcm.instance_selector labels_lib id) w)

  create_service-done :
      (spec : ContainerSpec) (id : String) (labels : Labels) (ports : List ContainerPort)
      (d : Deployment Q) (w : W)
      → (create_service client quantities labels_lib cfg spec id labels ports d w).0 ≡ ok tt
      → ServiceMade cfg spec id labels ports (view.services w ns) (
          view.services
            (create_service client quantities labels_lib cfg spec id labels ports d w).1
            ns)
        × SameDeployments view ns w
            (create_service client quantities labels_lib cfg spec id labels ports d w).1
  unfolding create_service
  create_service-done spec id labels [] d w h = (refl, refl)
  create_service-done spec id labels (p ∷ ps) d w h =
      let svc = build_service spec id cfg labels (resolve_service_type cfg (p ∷ ps)) (p ∷ ps) in
      elim (Result-cases (create_s request ns svc w).0) [
        | inl (s, made) ↦
            let (same, inserted, deployments) = laws.create_service-done request ns svc s w made in
            rw made ((s, same, inserted), deployments)
        | inr (e, failed) ↦ absurd (err≢ok (rw failed at h))
      ]

  -- What Create does to a cluster without the instance.
  abbrev pub Created : ContainerSpec → String → Container → W → W → Type 0
  Created spec id c w w' =
      (d : Deployment Q) × SameDeployment
        (build_deployment quantities spec id cfg
          (create_labels client quantities labels_lib cfg spec id))
        d
      × All (λ (e : Deployment Q). (e.name == d.name) ≡ false) (view.deployments w ns)
      × Inserted d (view.deployments w ns) (view.deployments w' ns)
      × ServiceMade cfg spec id (create_labels client quantities labels_lib cfg spec id)
          (ports_with_visibility spec) (view.services w ns) (view.services w' ns)
      × (c ≡ new_container_result spec id ns (client.now w'))

  create_objects-done :
      (spec : ContainerSpec) (id : String) (c : Container) (w : W)
      → (create_objects client quantities labels_lib cfg spec id w).0 ≡ ok c
      → Created spec id c w (create_objects client quantities labels_lib cfg spec id w).1
  unfolding create_objects
  create_objects-done spec id c w h =
      let labels = create_labels client quantities labels_lib cfg spec id in
      let new = build_deployment quantities spec id cfg labels in
      let w2 = (create_d request ns new w).1 in
      elim (Result-cases (create_d request ns new w).0) [
        | inr (e, failed) ↦ absurd (err≢ok (rw failed at h))
        | inl (d, made) ↦
            let (same, fresh, inserted, services) =
              laws.create_deployment-done request ns new d w made in
            elim (Result-cases
              (create_service client quantities labels_lib cfg spec id labels
                (ports_with_visibility spec) d w2).0) [
                  | inr (e, failed) ↦ absurd (err≢ok (rw (made, failed) at h))
                  | inl (u, done) ↦
                      let (services_made, deployments) =
                        create_service-done spec id labels (ports_with_visibility spec) d w2 done in
                      let result = rw (made, done) at h in
                      rw (made, done)
                        (
                          d,
                          same,
                          fresh,
                          (inserted.0, inserted.1, inserted.2, deployments ∙ inserted.3),
                          subst
                              (λ l. ServiceMade cfg spec id labels (ports_with_visibility spec) l (
                                view.services
                                  (create_service client quantities labels_lib cfg spec id labels
                                    (ports_with_visibility spec) d w2).1
                                  ns))
                              services services_made,
                          cc (result),
                        )
                ]
      ]

  Created-keeps :
      (spec : ContainerSpec) (id : String) (c : Container) {w v w' : W}
      → SameObjects view ns w v
      → Created spec id c v w'
      → Created spec id c w w'
  Created-keeps spec id c {w} {v} {w'} (deployments, services, pods)
        (d, same, fresh, inserted, made, result) =
      (
        d,
        same,
        subst (All (λ (e : Deployment Q). (e.name == d.name) ≡ false)) deployments fresh,
        (inserted.0, inserted.1, sym deployments ∙ inserted.2, inserted.3),
        subst
            (λ l.
              ServiceMade cfg spec id (create_labels client quantities labels_lib cfg spec id)
                (ports_with_visibility spec) l (view.services w' ns))
            services made,
        result,
      )

  create-listed :
      (spec : ContainerSpec) (id : String) (c : Container) (w : W) (ds : List (Deployment Q))
      → (list_d request ns (Dcm.instance_selector labels_lib id) w).0 ≡ ok ds
      → (create client quantities labels_lib cfg spec id w).0 ≡ ok c
      → (instances id w ≡ [])
        × Created spec id c w (create client quantities labels_lib cfg spec id w).1
  unfolding create Dcm.instance_selector
  create-listed spec id c w (d ∷ ds) listed h = absurd (err≢ok (rw listed at h))
  create-listed spec id c w [] listed h =
      let sel = Dcm.instance_selector labels_lib id in
      let after = (list_d request ns sel w).1 in
      rw listed (
        sym (laws.list_deployments-found request ns (instance_labels id) w [] listed),
        Created-keeps spec id c (laws.list_deployments-keeps request ns sel w)
            (create_objects-done spec id c after (rw listed at h)),
      )

  -- A successful Create: there was no deployment of the instance, and there are now the deployment
  -- that buildDeployment describes, under a fresh name, and the service of the exposed ports. The
  -- result is the one that newContainerResult makes.
  pub create-done :
      (spec : ContainerSpec) (id : String) (c : Container) (w : W)
      → (create client quantities labels_lib cfg spec id w).0 ≡ ok c
      → (instances id w ≡ [])
        × Created spec id c w (create client quantities labels_lib cfg spec id w).1
  unfolding create Dcm.instance_selector
  create-done spec id c w h =
      let sel = Dcm.instance_selector labels_lib id in
      elim (Result-cases (list_d request ns sel w).0) [
        | inr (e, failed) ↦ absurd (err≢ok (rw failed at h))
        | inl (ds, listed) ↦ create-listed spec id c w ds listed h
      ]
