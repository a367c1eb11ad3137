-- ===== src/Kubernetes/Store/Answers.antt =====
-- What the calls of the store answer: the enrichment of a container and its errors.
use k8s_container_service_pr.Base.{
  String, List, [], ◌∷◌, ◌≡◌, ◌⊎◌, refl, inl, inr, Bool-cases, Result, ok, err,
}
use k8s_container_service_pr.Base.Exec.{Exec, ◌>>=◌, continue, handle, pure, raise}
use k8s_container_service_pr.Api.{Container}
use k8s_container_service_pr.Dcm
use k8s_container_service_pr.Dcm.{LabelLib, instance_labels, matches}
use k8s_container_service_pr.Units.{QuantityLib}
use k8s_container_service_pr.Kube.{Deployment, Pod, Service, Client, request}
use k8s_container_service_pr.Kubernetes.Convert.{K8sConfig, container_from_deployment}
use k8s_container_service_pr.Kubernetes.Enrich.Kept.{
  Kept, Kept-refl, Kept-trans, enrich_with_pod-Kept, enrich_with_service-Kept,
}
use k8s_container_service_pr.Kubernetes.Store.{
  StoreError, conflict_error, client_error, enrich_with_pods, enrich_with_services,
  enrich_from_cluster, build_container, multiple_pods, is_rolling_update, pending_container, call,
}

enrich_with_services-Kept : (ss : List Service) (c : Container) → Kept c (enrich_with_services ss c)
unfolding enrich_with_services
enrich_with_services-Kept [] c = Kept-refl c
enrich_with_services-Kept (s ∷ []) c = enrich_with_service-Kept c s
enrich_with_services-Kept (s ∷ t ∷ ss) c = Kept-refl c

module _ {E : Type 0} where
  -- What holds of the value of an answer, and what of its error.
  abbrev pub Answers : {A : Type 0} → (A → Type 0) → (E → Type 0) → Result E A → Type 0
  Answers P R (ok a) = P a
  Answers P R (err e) = R e

module _ {W E : Type 0} where
  pub Answers-bind :
      {A B : Type 0} (P : A → Type 0) (P' : B → Type 0) (R : E → Type 0) (m : Exec W E A)
      (f : A → Exec W E B) (w : W)
      → Answers P R (m w).0
      → ((a : A) (v : W) → P a → Answers P' R (f a v).0)
      → Answers P' R ((m >>= f) w).0
  Answers-bind {A = A} P P' R m f w h k = after (m w).0 (m w).1 h
    where
      after : (r : Result E A) (v : W) → Answers P R r → Answers P' R (continue r f v).0
      after (ok a) v g = k a v g
      after (err e) v g = g

abbrev pub IsClientError : {E : Type 0} → StoreError E → Type 0
IsClientError {E} f = (e : E) × (f ≡ client_error e)

abbrev pub Anything : {A : Type 0} → A → Type 0
Anything a = Unit

module _ {W E Q : Type 0} (client : Client W E Q) (quantities : QuantityLib Q)
    (labels_lib : LabelLib) (cfg : K8sConfig) where
  -- The errors of the enrichment.
  abbrev pub Refused : String → StoreError E → Type 0
  Refused id f = (f ≡ conflict_error (multiple_pods id)) ⊎ IsClientError f

  Answers-call :
      {A : Type 0} (id : String) (m : Exec W E A) (w : W)
      → Answers Anything (Refused id) (call client quantities labels_lib cfg m w).0
  Answers-call {A = A} id m w = after (m w).0 (m w).1
    where
      after :
          (r : Result E A) (v : W)
          → Answers Anything (Refused id) (handle r (λ e. raise (client_error e)) v).0
      after (ok a) v = tt
      after (err e) v = inr (e, refl)

  enrich_with_pods-Kept :
      (id : String) (d : Deployment Q) (ps : List Pod) (c : Container) (w : W)
      → Answers
          (Kept c)
          (Refused id)
          (enrich_with_pods client quantities labels_lib cfg id d ps c w).0
  unfolding enrich_with_pods pending_container
  enrich_with_pods-Kept id d [] c w = Kept-refl c
  enrich_with_pods-Kept id d (p ∷ []) c w = enrich_with_pod-Kept c p
  enrich_with_pods-Kept id d (p ∷ q ∷ []) c w = elim (Bool-cases (is_rolling_update d)) [
    | inl e ↦ rw e (enrich_with_pod-Kept c _)
    | inr e ↦ rw e (inl refl)
  ]
  enrich_with_pods-Kept id d (p ∷ q ∷ r ∷ ps) c w = inl refl

  pub build_container-Kept :
      (d : Deployment Q) (id : String) (w : W)
      → Answers
          (Kept (container_from_deployment quantities d id))
          (Refused id)
          (build_container client quantities labels_lib cfg d id w).0
  unfolding build_container enrich_from_cluster
  build_container-Kept d id w =
      let c = container_from_deployment quantities d id in
      let list_p = client.list_pods request cfg.namespace (Dcm.instance_selector labels_lib id) in
      let list_s =
        client.list_services request cfg.namespace (Dcm.instance_selector labels_lib id) in
      let last = λ (c' : Container). call client quantities labels_lib cfg list_s >>= λ ss.
      pure {E = StoreError E} (enrich_with_services ss c') in
      Answers-bind Anything (Kept c) (Refused id) (call client quantities labels_lib cfg list_p)
        (λ ps. enrich_with_pods client quantities labels_lib cfg id d ps c >>= last) w
        (Answers-call id list_p w)
        (λ ps v t.
          Answers-bind (Kept c) (Kept c) (Refused id)
            (enrich_with_pods client quantities labels_lib cfg id d ps c) last v
            (enrich_with_pods-Kept id d ps c v)
            (λ c' u k.
              Answers-bind Anything (Kept c) (Refused id)
                (call client quantities labels_lib cfg list_s)
                (λ ss. pure (enrich_with_services ss c')) u (Answers-call id list_s u)
                (λ ss x t.
                  Kept-trans c c' (enrich_with_services ss c') k
                    (enrich_with_services-Kept ss c'))))
