-- ===== src/Contract/Writes.antt =====
-- The errors of Create and of Delete, by what the cluster has.
use k8s_container_service_pr.Base.{
  String, List, [], ◌∷◌, ◌≡◌, ◌≢◌, ◌⊎◌, refl, sym, ap, inl, inr, Bool-cases, Result, ok, err,
  Result-cases, length, ◌≤◌, arith,
}
use k8s_container_service_pr.Base.Exec.{Exec, ◌>>=◌, handle, raise}
use k8s_container_service_pr.Api.{ContainerSpec, ContainerPort, Container, Labels}
use k8s_container_service_pr.Dcm
use k8s_container_service_pr.Dcm.{LabelLib, instance_labels}
use k8s_container_service_pr.Units.{QuantityLib}
use k8s_container_service_pr.Kube.{Deployment, Service, Client, request, detached}
use k8s_container_service_pr.Kube.Laws.{View, ClientLaws}
use k8s_container_service_pr.Kubernetes.Convert.{K8sConfig}
use k8s_container_service_pr.Kubernetes.Build.{
  build_deployment, build_service, resolve_service_type, ports_with_visibility,
}
use k8s_container_service_pr.Kubernetes.Store.{
  StoreError, not_found_error, conflict_error, client_error, single_deployment, call, create,
  create_objects, create_service, create_labels, delete, delete_each,
}
use k8s_container_service_pr.Contract.{taken_id, taken_name}
use k8s_container_service_pr.Contract.Outcomes.{instances}
use k8s_container_service_pr.Kubernetes.Store.Answers.{
  Answers, Answers-bind, Anything, IsClientError,
}

module _ {W E Q : Type 0} (client : Client W E Q) (quantities : QuantityLib Q)
    (labels_lib : LabelLib) (cfg : K8sConfig) where
  open client use {
    list_deployments as list_d, create_deployment as create_d, create_service as create_s,
  }

  call-Answers :
      {A : Type 0} (m : Exec W E A) (w : W)
      → Answers Anything IsClientError (call client quantities labels_lib cfg m w).0
  call-Answers {A = A} m w = after (m w).0 (m w).1
    where
      after :
          (r : Result E A) (v : W)
          → Answers Anything IsClientError (handle r (λ e. raise (client_error e)) v).0
      after (ok a) v = tt
      after (err e) v = (e, refl)

  create_service-Answers :
      (spec : ContainerSpec) (id : String) (labels : Labels) (ports : List ContainerPort)
      (d : Deployment Q) (w : W)
      → Answers Anything IsClientError
          (create_service client quantities labels_lib cfg spec id labels ports d w).0
  unfolding create_service
  create_service-Answers spec id labels [] d w = tt
  create_service-Answers spec id labels (p ∷ ps) d w =
      let svc = build_service spec id cfg labels (resolve_service_type cfg (p ∷ ps)) (p ∷ ps) in
      elim (Result-cases (create_s request cfg.namespace svc w).0) [
        | inl (s, made) ↦ rw made tt
        | inr (e, failed) ↦ rw failed (e, refl)
      ]

  -- The errors of the calls that follow the check for a duplicate.
  abbrev ObjectsRefused : ContainerSpec → StoreError E → Type 0
  ObjectsRefused spec f = (f ≡ conflict_error (taken_name spec.metadata.name)) ⊎ IsClientError f

  create_objects-Answers :
      (spec : ContainerSpec) (id : String) (w : W)
      → Answers Anything
          (ObjectsRefused spec)
          (create_objects client quantities labels_lib cfg spec id w).0
  unfolding create_objects
  create_objects-Answers spec id w =
      let labels = create_labels client quantities labels_lib cfg spec id in
      let new = build_deployment quantities spec id cfg labels in
      let ports = ports_with_visibility spec in
      elim (Result-cases (create_d request cfg.namespace new w).0) [
        | inl (d, made) ↦
            let w2 = (create_d request cfg.namespace new w).1 in
            let h = create_service-Answers spec id labels ports d w2 in
            elim (Result-cases
              (create_service client quantities labels_lib cfg spec id labels ports d w2).0) [
                | inl (u, done) ↦ rw (made, done) tt
                | inr (e, failed) ↦ rw (made, failed) (inr (rw failed at h))
              ]
        | inr (e, failed) ↦ elim (Bool-cases (client.is_already_exists e)) [
          | inl taken ↦ rw (failed, taken) (inl refl)
          | inr other ↦ rw (failed, other) (inr (e, refl))
        ]
      ]

  module _ (view : View W Q) (laws : ClientLaws client labels_lib view) where
    abbrev found : String → W → List (Deployment Q)
    found id w = instances client quantities labels_lib cfg view laws id w

    abbrev pub CreateRefused : ContainerSpec → String → W → StoreError E → Type 0
    CreateRefused spec id w f =
        ((found id w ≢ []) × (f ≡ conflict_error (taken_id id)))
        ⊎ ((found id w ≡ []) × (f ≡ conflict_error (taken_name spec.metadata.name)))
        ⊎ IsClientError f

    create_listed-Answers :
        (spec : ContainerSpec) (id : String) (w : W) (ds : List (Deployment Q))
        → (list_d request cfg.namespace (Dcm.instance_selector labels_lib id) w).0 ≡ ok ds
        → ds ≡ found id w
        → Answers Anything
            (CreateRefused spec id w)
            (create client quantities labels_lib cfg spec id w).0
    unfolding create
    create_listed-Answers spec id w (d ∷ ds) listed same = rw listed (inl (some_left same, refl))
      where
        some_left : {A : Type 0} {x : A} {xs ys : List A} → x ∷ xs ≡ ys → ys ≢ []
        some_left e n = cc
    create_listed-Answers spec id w [] listed same =
        let v = (list_d request cfg.namespace (Dcm.instance_selector labels_lib id) w).1 in
        rw listed (
          weaken (create_objects client quantities labels_lib cfg spec id v).0
            (create_objects-Answers spec id v))
      where
        weaken :
            (r : Result (StoreError E) Container)
            → Answers Anything (ObjectsRefused spec) r
            → Answers Anything (CreateRefused spec id w) r
        weaken (ok c) h = tt
        weaken (err f) (inl h) = inr (inl (sym same, h))
        weaken (err f) (inr h) = inr (inr h)

    pub create-refused :
        (spec : ContainerSpec) (id : String) (w : W)
        → Answers Anything
            (CreateRefused spec id w)
            (create client quantities labels_lib cfg spec id w).0
    unfolding create Dcm.instance_selector
    create-refused spec id w =
        let sel = Dcm.instance_selector labels_lib id in
        elim (Result-cases (list_d request cfg.namespace sel w).0) [
          | inl (ds, listed) ↦
              create_listed-Answers spec id w ds listed
                (laws.list_deployments-found request cfg.namespace (instance_labels id) w ds listed)
          | inr (e, failed) ↦ rw failed (inr (inr (e, refl)))
        ]

    abbrev pub DeleteRefused : String → W → StoreError E → Type 0
    DeleteRefused id w f = ((found id w ≡ []) × (f ≡ not_found_error id)) ⊎ IsClientError f

    delete_each-Answers :
        (ss : List Service) (w : W)
        → Answers Anything IsClientError (delete_each client quantities labels_lib cfg ss w).0
    delete_each-Answers [] w = tt
    delete_each-Answers (s ∷ ss) w =
        let m = client.delete_service request cfg.namespace s.name in
        Answers-bind Anything Anything IsClientError (call client quantities labels_lib cfg m)
          (λ t. delete_each client quantities labels_lib cfg ss) w (call-Answers m w)
          (λ t v h. delete_each-Answers ss v)

    delete_listed-Answers :
        (id : String) (w : W) (ds : List (Deployment Q))
        → (list_d request cfg.namespace (Dcm.instance_selector labels_lib id) w).0 ≡ ok ds
        → length (found id w) ≤ 1
        → ds ≡ found id w
        → Answers Anything (DeleteRefused id w) (delete client quantities labels_lib cfg id w).0
    unfolding delete single_deployment
    delete_listed-Answers id w [] listed one same = rw listed (inl (sym same, refl))
    delete_listed-Answers id w (d ∷ e ∷ ds) listed one same =
        absurd (omega (arith, ap length same, one))
    delete_listed-Answers id w (d ∷ []) listed one same =
        let v = (list_d request cfg.namespace (Dcm.instance_selector labels_lib id) w).1 in
        let list_s =
          client.list_services request cfg.namespace (Dcm.instance_selector labels_lib id) in
        let last =
          call client quantities labels_lib cfg
            (client.delete_deployment (detached 30) cfg.namespace d.name) in
        let rest =
          λ (ss : List Service). delete_each client quantities labels_lib cfg ss >>= (λ t. last) in
        rw listed (
          weaken ((call client quantities labels_lib cfg list_s >>= rest) v).0 (
            Answers-bind Anything Anything IsClientError
              (call client quantities labels_lib cfg list_s) rest v (call-Answers list_s v)
              (λ ss u h.
                Answers-bind Anything Anything IsClientError
                  (delete_each client quantities labels_lib cfg ss) (λ t. last) u
                  (delete_each-Answers ss u)
                  (λ t x k.
                    call-Answers (client.delete_deployment (detached 30) cfg.namespace d.name) x))))
      where
        weaken :
            (r : Result (StoreError E) (Unit {0}))
            → Answers Anything IsClientError r
            → Answers Anything (DeleteRefused id w) r
        weaken (ok c) h = tt
        weaken (err f) h = inr h

    pub delete-refused :
        (id : String) (w : W)
        → length (found id w) ≤ 1
        → Answers Anything (DeleteRefused id w) (delete client quantities labels_lib cfg id w).0
    unfolding delete Dcm.instance_selector
    delete-refused id w one =
        let sel = Dcm.instance_selector labels_lib id in
        elim (Result-cases (list_d request cfg.namespace sel w).0) [
          | inl (ds, listed) ↦
              delete_listed-Answers id w ds listed one
                (laws.list_deployments-found request cfg.namespace (instance_labels id) w ds listed)
          | inr (e, failed) ↦ rw failed (inr (e, refl))
        ]
