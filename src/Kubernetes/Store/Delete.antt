-- ===== src/Kubernetes/Store/Delete.antt =====
-- Delete of internal/kubernetes/store_delete.go: what it leaves in the cluster, on every path.
pub mod Failed
use k8s_container_service_pr.Base.{
  String, not, List, [], ◌∷◌, ◌==◌, ◌≡◌, refl, sym, ap, ◌∙◌, inl, inr, eq_refl, filter_comm, filter,
  Result, ok, err, Result-cases,
}
use k8s_container_service_pr.Base.Exec.{◌>>=◌}
use k8s_container_service_pr.Dcm
use k8s_container_service_pr.Dcm.{LabelLib, instance_labels, matches}
use k8s_container_service_pr.Units.{QuantityLib}
use k8s_container_service_pr.Kube.{Deployment, Service, Client, request, detached}
use k8s_container_service_pr.Kube.Laws.{
  View, SameDeployments, SameObjects, ClientLaws, without_deployment,
}
use k8s_container_service_pr.Kubernetes.Store.Services.{
  without_each, without_each_self, filter-without_each,
}
use k8s_container_service_pr.Kubernetes.Convert.{K8sConfig}
use k8s_container_service_pr.Kubernetes.Store.{
  StoreError, not_found_error, single_deployment, call, delete, delete_each,
}

err≢ok : {E A : Type 0} {e : E} {a : A} → err e ≡ ok a → ⊥
err≢ok h = cc

none_left : {Q : Type 0} (d : Deployment Q) → without_deployment d.name (d ∷ []) ≡ []
none_left d = rw (eq_refl d.name)

module _ {W E Q : Type 0} (client : Client W E Q) (quantities : QuantityLib Q)
    (labels_lib : LabelLib) (cfg : K8sConfig) (view : View W Q)
    (laws : ClientLaws client labels_lib view) where
  open client use {
    list_deployments as list_d, create_deployment as create_d, create_service as create_s,
    delete_deployment as delete_d,
  }

  abbrev ns : String
  ns = cfg.namespace

  abbrev instances : String → W → List (Deployment Q)
  instances id w = filter (λ d. matches (instance_labels id) d.labels) (view.deployments w ns)

  abbrev services_of : String → W → List Service
  services_of id w = filter (λ s. matches (instance_labels id) s.labels) (view.services w ns)

  delete_each-done :
      (ss : List Service) (w : W)
      → (delete_each client quantities labels_lib cfg ss w).0 ≡ ok tt
      → (view.services (delete_each client quantities labels_lib cfg ss w).1 ns
          ≡ without_each ss (view.services w ns))
        × SameDeployments view ns w (delete_each client quantities labels_lib cfg ss w).1
  delete_each-done [] w h = (refl, refl)
  delete_each-done (s ∷ ss) w h =
      let w' = (client.delete_service request ns s.name w).1 in
      elim (Result-cases (client.delete_service request ns s.name w).0) [
        | inr (e, failed) ↦ absurd (err≢ok (rw failed at h))
        | inl (u, done) ↦
            let (gone, kept) = laws.delete_service-done request ns s.name w done in
            let (rest, same) = delete_each-done ss w' (rw done at h) in
            rw done (rest ∙ ap (without_each ss) gone, same ∙ kept)
      ]

  -- Nothing of an instance is left in the namespace.
  abbrev Gone : String → W → Type 0
  Gone id w = (instances id w ≡ []) × (services_of id w ≡ [])

  -- What the calls after findDeployment leave.
  delete_objects-done :
      (id : String) (d : Deployment Q) (w : W) (ss : List Service)
      → instances id w ≡ d ∷ []
      → (client.list_services request ns (Dcm.instance_selector labels_lib id) w).0 ≡ ok ss
      → let v = (client.list_services request ns (Dcm.instance_selector labels_lib id) w).1 in
        let u = (delete_each client quantities labels_lib cfg ss v).1 in
        (delete_each client quantities labels_lib cfg ss v).0 ≡ ok tt
        → (delete_d (detached 30) ns d.name u).0 ≡ ok tt
        → Gone id (delete_d (detached 30) ns d.name u).1
          × (view.deployments (delete_d (detached 30) ns d.name u).1 ns
              ≡ without_deployment d.name (view.deployments w ns))
  unfolding Dcm.instance_selector
  delete_objects-done id d w ss one listed done deleted =
      let sel = Dcm.instance_selector labels_lib id in
      let v = (client.list_services request ns sel w).1 in
      let kept = laws.list_services-keeps request ns sel w in
      let (services, same_d) = delete_each-done ss v done in
      let u = (delete_each client quantities labels_lib cfg ss v).1 in
      let (gone_d, same_s) = laws.delete_deployment-done (detached 30) ns d.name u deleted in
      let named = (λ (t : Service). matches (instance_labels id) t.labels) in
      let mine = (λ (e : Deployment Q). matches (instance_labels id) e.labels) in
      let found = laws.list_services-found request ns (instance_labels id) w ss listed in
      let left = gone_d ∙ ap (without_deployment d.name) (same_d ∙ kept.0) in
      (
        (
          ap (filter mine) left
              ∙ filter_comm mine (λ e. not (e.name == d.name)) (view.deployments w ns)
              ∙ ap (without_deployment d.name) one
              ∙ none_left d,
          ap (filter named) (same_s ∙ services ∙ ap (without_each ss) kept.1)
              ∙ filter-without_each named ss (view.services w ns)
              ∙ ap (without_each ss) (sym found)
              ∙ without_each_self ss,
        ),
        left,
      )

  -- The calls of Delete after findDeployment.
  abbrev delete_objects : String → Deployment Q → W → Result (StoreError E) (Unit {0}) × W
  delete_objects id d =
      call client quantities labels_lib cfg
        (client.list_services request ns (Dcm.instance_selector labels_lib id))
      >>= λ ss. delete_each client quantities labels_lib cfg ss >>= λ _.
          call client quantities labels_lib cfg (delete_d (detached 30) ns d.name)

  delete_objects-ok :
      (id : String) (d : Deployment Q) (w : W)
      → instances id w ≡ d ∷ []
      → (delete_objects id d w).0 ≡ ok tt
      → Gone id (delete_objects id d w).1
        × (view.deployments (delete_objects id d w).1 ns
            ≡ without_deployment d.name (view.deployments w ns))
  delete_objects-ok id d w one h =
      let sel = Dcm.instance_selector labels_lib id in
      let v = (client.list_services request ns sel w).1 in
      elim (Result-cases (client.list_services request ns sel w).0) [
        | inr (e, failed) ↦ absurd (err≢ok (rw failed at h))
        | inl (ss, listed) ↦
            let u = (delete_each client quantities labels_lib cfg ss v).1 in
            elim (Result-cases (delete_each client quantities labels_lib cfg ss v).0) [
              | inr (e, failed) ↦ absurd (err≢ok (rw (listed, failed) at h))
              | inl (t, done) ↦ elim (Result-cases (delete_d (detached 30) ns d.name u).0) [
                | inr (e, failed) ↦ absurd (err≢ok (rw (listed, done, failed) at h))
                | inl (t', deleted) ↦
                    rw (listed, done, deleted)
                      (delete_objects-done id d w ss one listed done deleted)
              ]
            ]
      ]

  -- The three results of the search for the deployment of an instance.
  delete_listed :
      (id : String) (w : W) (ds : List (Deployment Q))
      → (list_d request ns (Dcm.instance_selector labels_lib id) w).0 ≡ ok ds
      → (delete client quantities labels_lib cfg id w).0 ≡ ok tt
      → Gone id (delete client quantities labels_lib cfg id w).1
        × ((d : Deployment Q) × (instances id w ≡ d ∷ [])
            × (view.deployments (delete client quantities labels_lib cfg id w).1 ns
                ≡ without_deployment d.name (view.deployments w ns)))
  unfolding delete single_deployment Dcm.instance_selector
  delete_listed id w [] listed h = absurd (err≢ok (rw listed at h))
  delete_listed id w (d ∷ e ∷ ds) listed h = absurd (err≢ok (rw listed at h))
  delete_listed id w (d ∷ []) listed h =
      let sel = Dcm.instance_selector labels_lib id in
      let v = (list_d request ns sel w).1 in
      let kept = laws.list_deployments-keeps request ns sel w in
      let found =
        sym (laws.list_deployments-found request ns (instance_labels id) w (d ∷ []) listed) in
      let one = ap (filter (λ e. matches (instance_labels id) e.labels)) kept.0 ∙ found in
      let (gone, left) = delete_objects-ok id d v one (rw listed at h) in
      rw listed (gone, (d, found, left ∙ ap (without_deployment d.name) kept.0))

  -- A successful Delete: there was one deployment of the instance, that deployment is gone and no
  -- other is, and neither a deployment nor a service of the instance is left.
  pub delete-done :
      (id : String) (w : W)
      → (delete client quantities labels_lib cfg id w).0 ≡ ok tt
      → Gone id (delete client quantities labels_lib cfg id w).1
        × ((d : Deployment Q) × (instances id w ≡ d ∷ [])
            × (view.deployments (delete client quantities labels_lib cfg id w).1 ns
                ≡ without_deployment d.name (view.deployments w ns)))
  unfolding delete
  delete-done id w h =
      elim (Result-cases (list_d request ns (Dcm.instance_selector labels_lib id) w).0) [
        | inl (ds, listed) ↦ delete_listed id w ds listed h
        | inr (e, failed) ↦ absurd (err≢ok (rw failed at h))
      ]
