-- ===== src/Kubernetes/Store/Delete/Failed.antt =====
-- Delete of internal/kubernetes/store_delete.go where it returns an error.
use k8s_container_service_pr.Base.{
  String, List, [], ◌∷◌, ◌≡◌, refl, ap, ◌∙◌, inl, inr, ok, err, Result-cases,
}
use k8s_container_service_pr.Dcm
use k8s_container_service_pr.Dcm.{LabelLib, instance_labels, matches}
use k8s_container_service_pr.Units.{QuantityLib}
use k8s_container_service_pr.Kube.{Deployment, Service, Client, request, detached}
use k8s_container_service_pr.Kube.Laws.{View, SameDeployments, SameObjects, ClientLaws}
use k8s_container_service_pr.Kubernetes.Convert.{K8sConfig}
use k8s_container_service_pr.Kubernetes.Store.{
  StoreError, not_found_error, single_deployment, delete, delete_each,
}
use k8s_container_service_pr.Kubernetes.Store.Delete.{instances, delete_objects}

ok≢err : {E A : Type 0} {e : E} {a : A} → ok a ≡ err e → ⊥
ok≢err h = cc

module _ {W E Q : Type 0} (client : Client W E Q) (quantities : QuantityLib Q)
    (labels_lib : LabelLib) (cfg : K8sConfig) (view : View W Q)
    (laws : ClientLaws client labels_lib view) where
  open client use {
    list_deployments as list_d, create_deployment as create_d, create_service as create_s,
    delete_deployment as delete_d,
  }

  delete_each-deployments :
      (ss : List Service) (w : W)
      → SameDeployments view cfg.namespace w (delete_each client quantities labels_lib cfg ss w).1
  delete_each-deployments [] w = refl
  delete_each-deployments (s ∷ ss) w =
      let w' = (client.delete_service request cfg.namespace s.name w).1 in
      elim (Result-cases (client.delete_service request cfg.namespace s.name w).0) [
        | inr (e, failed) ↦
            rw failed (laws.delete_service-failed request cfg.namespace s.name w e failed).0
        | inl (u, done) ↦ rw done (
            delete_each-deployments ss w'
            ∙ (laws.delete_service-done request cfg.namespace s.name w done).1)
      ]

  delete_objects-deployments :
      (id : String) (d : Deployment Q) (f : StoreError E) (w : W)
      → (delete_objects client quantities labels_lib cfg view laws id d w).0 ≡ err f
      → SameDeployments view cfg.namespace w
          (delete_objects client quantities labels_lib cfg view laws id d w).1
  delete_objects-deployments id d f w h =
      let sel = Dcm.instance_selector labels_lib id in
      let v = (client.list_services request cfg.namespace sel w).1 in
      let kept = laws.list_services-keeps request cfg.namespace sel w in
      elim (Result-cases (client.list_services request cfg.namespace sel w).0) [
        | inr (e, failed) ↦ rw failed kept.0
        | inl (ss, listed) ↦
            let u = (delete_each client quantities labels_lib cfg ss v).1 in
            let same = delete_each-deployments ss v ∙ kept.0 in
            elim (Result-cases (delete_each client quantities labels_lib cfg ss v).0) [
              | inr (e, failed) ↦ rw (listed, failed) same
              | inl (t, done) ↦
                  elim (Result-cases (delete_d (detached 30) cfg.namespace d.name u).0) [
                    | inl (t', deleted) ↦ absurd (ok≢err (rw (listed, done, deleted) at h))
                    | inr (e, failed) ↦
                        rw (listed, done, failed)
                          ((laws.delete_deployment-failed (detached 30) cfg.namespace d.name u e
                              failed).0
                            ∙ same)
                  ]
            ]
      ]

  delete_listed-failed :
      (id : String) (f : StoreError E) (w : W) (ds : List (Deployment Q))
      → (list_d request cfg.namespace (Dcm.instance_selector labels_lib id) w).0 ≡ ok ds
      → (delete client quantities labels_lib cfg id w).0 ≡ err f
      → SameDeployments view cfg.namespace w (delete client quantities labels_lib cfg id w).1
  unfolding delete single_deployment
  delete_listed-failed id f w [] listed h =
      rw listed
        (laws.list_deployments-keeps request cfg.namespace (Dcm.instance_selector labels_lib id)
          w).0
  delete_listed-failed id f w (d ∷ e ∷ ds) listed h =
      rw listed
        (laws.list_deployments-keeps request cfg.namespace (Dcm.instance_selector labels_lib id)
          w).0
  delete_listed-failed id f w (d ∷ []) listed h =
      let sel = Dcm.instance_selector labels_lib id in
      let v = (list_d request cfg.namespace sel w).1 in
      rw listed (
        delete_objects-deployments id d f v (rw listed at h)
        ∙ (laws.list_deployments-keeps request cfg.namespace sel w).0)

  -- A Delete that returns an error has deleted no deployment, so that it can be called again.
  pub delete-failed :
      (id : String) (f : StoreError E) (w : W)
      → (delete client quantities labels_lib cfg id w).0 ≡ err f
      → SameDeployments view cfg.namespace w (delete client quantities labels_lib cfg id w).1
  unfolding delete
  delete-failed id f w h =
      elim (Result-cases (list_d request cfg.namespace (Dcm.instance_selector labels_lib id) w).0) [
        | inl (ds, listed) ↦ delete_listed-failed id f w ds listed h
        | inr (e, failed) ↦
            rw failed
              (laws.list_deployments-keeps request cfg.namespace
                (Dcm.instance_selector labels_lib id) w).0
      ]

  -- Delete of an instance without a deployment: not found, and nothing is changed.
  pub delete-not_found :
      (id : String) (w : W) (ds : List (Deployment Q))
      → (list_d request cfg.namespace (Dcm.instance_selector labels_lib id) w).0 ≡ ok ds
      → instances client quantities labels_lib cfg view laws id w ≡ []
      → ((delete client quantities labels_lib cfg id w).0 ≡ err (not_found_error id))
        × SameObjects view cfg.namespace w (delete client quantities labels_lib cfg id w).1
  unfolding delete single_deployment Dcm.instance_selector
  delete-not_found id w ds listed nothing =
      let e =
        listed
        ∙ ap (λ l. ok l)
            (laws.list_deployments-found request cfg.namespace (instance_labels id) w ds listed
              ∙ nothing) in
      rw e (
        refl,
        laws.list_deployments-keeps request cfg.namespace (Dcm.instance_selector labels_lib id) w,
      )
