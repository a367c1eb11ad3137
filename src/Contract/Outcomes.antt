-- ===== src/Contract/Outcomes.antt =====
-- The answers of Get, by what the cluster has.
use k8s_container_service_pr.Base.{
  String, List, [], ◌∷◌, ◌≡◌, ◌≢◌, ◌⊎◌, refl, sym, ap, inl, inr, Result, ok, err, Result-cases,
  filter, length, ◌≤◌, arith,
}
use k8s_container_service_pr.Api.{Container}
use k8s_container_service_pr.Dcm
use k8s_container_service_pr.Dcm.{LabelLib, instance_labels, matches}
use k8s_container_service_pr.Units.{QuantityLib}
use k8s_container_service_pr.Kube.{Deployment, Client, request}
use k8s_container_service_pr.Kube.Laws.{View, ClientLaws}
use k8s_container_service_pr.Kubernetes.Convert.{K8sConfig, container_from_deployment}
use k8s_container_service_pr.Kubernetes.Enrich.Kept.{Kept}
use k8s_container_service_pr.Kubernetes.Store.{
  StoreError, not_found_error, conflict_error, single_deployment, find_deployment, get,
  multiple_pods,
}
use k8s_container_service_pr.Kubernetes.Store.Answers.{
  Answers, IsClientError, Refused, build_container-Kept,
}

module _ {W E Q : Type 0} (client : Client W E Q) (quantities : QuantityLib Q)
    (labels_lib : LabelLib) (cfg : K8sConfig) where
  module _ (view : View W Q) (laws : ClientLaws client labels_lib view) where
    abbrev pub instances : String → W → List (Deployment Q)
    instances id w =
        filter (λ d. matches (instance_labels id) d.labels) (view.deployments w cfg.namespace)

    -- Get of an instance with one deployment at most.
    abbrev pub GetAnswer : String → W → Result (StoreError E) Container → Type 0
    GetAnswer id w (ok c) =
        (d : Deployment Q) × (instances id w ≡ d ∷ [])
        × Kept (container_from_deployment quantities d id) c
    GetAnswer id w (err f) =
        ((instances id w ≡ []) × (f ≡ not_found_error id))
        ⊎ ((instances id w ≢ []) × (f ≡ conflict_error (multiple_pods id)))
        ⊎ IsClientError f

    GetAnswer-built :
        (id : String) (w : W) (d : Deployment Q) (r : Result (StoreError E) Container)
        → instances id w ≡ d ∷ []
        → Answers
            (Kept (container_from_deployment quantities d id))
            (Refused client quantities labels_lib cfg id)
            r
        → GetAnswer id w r
    GetAnswer-built id w d (ok c) one h = (d, one, h)
    GetAnswer-built id w d (err f) one (inl h) = inr (inl (some_left one, h))
      where
        some_left : {A : Type 0} {x : A} {xs : List A} → xs ≡ x ∷ [] → xs ≢ []
        some_left e n = cc
    GetAnswer-built id w d (err f) one (inr h) = inr (inr h)

    GetAnswer-listed :
        (id : String) (w : W) (ds : List (Deployment Q))
        → (client.list_deployments request cfg.namespace (Dcm.instance_selector labels_lib id) w).0
          ≡ ok ds
        → length (instances id w) ≤ 1
        → ds ≡ instances id w
        → GetAnswer id w (get client quantities labels_lib cfg id w).0
    unfolding get find_deployment single_deployment
    GetAnswer-listed id w [] listed one found = rw listed (inl (sym found, refl))
    GetAnswer-listed id w (d ∷ []) listed one found = rw listed (
        GetAnswer-built id w d _ (sym found) (
          build_container-Kept client quantities labels_lib cfg d id
            (client.list_deployments request cfg.namespace (Dcm.instance_selector labels_lib id)
              w).1))
    GetAnswer-listed id w (d ∷ e ∷ ds) listed one found =
        absurd (omega (arith, ap length found, one))

    pub get_lem :
        (id : String) (w : W)
        → length (instances id w) ≤ 1
        → GetAnswer id w (get client quantities labels_lib cfg id w).0
    unfolding get find_deployment Dcm.instance_selector
    get_lem id w one =
        let m =
          client.list_deployments request cfg.namespace (Dcm.instance_selector labels_lib id) in
        elim (Result-cases (m w).0) [
          | inl (ds, listed) ↦
              GetAnswer-listed id w ds listed one
                (laws.list_deployments-found request cfg.namespace (instance_labels id) w ds listed)
          | inr (e, failed) ↦ rw failed (inr (inr (e, refl)))
        ]
