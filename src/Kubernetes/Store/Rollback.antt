-- ===== src/Kubernetes/Store/Rollback.antt =====
-- The error paths of Create in internal/kubernetes/store_create.go, with its rollback.
use k8s_container_service_pr.Base.{
  String, Bool, true, false, not, List, [], ◌∷◌, ◌++◌, ◌==◌, ◌≡◌, refl, ap, ◌∙◌, inl, inr, eq_refl,
  is_empty, filter, All, ok, err, Result-cases,
}
use mathlib.Core.Path.{subst}
use k8s_container_service_pr.Api.{Labels, ContainerSpec, ContainerPort}
use k8s_container_service_pr.Dcm
use k8s_container_service_pr.Dcm.{LabelLib, instance_labels, matches}
use k8s_container_service_pr.Units.{QuantityLib}
use k8s_container_service_pr.Kube.{Deployment, Service, Client, request, detached}
use k8s_container_service_pr.Kube.Laws.{
  View, SameDeployments, SameServices, Inserted, ClientLaws, without_deployment,
}
use k8s_container_service_pr.Kubernetes.Convert.{K8sConfig}
use k8s_container_service_pr.Kubernetes.Build.{
  ports_with_visibility, resolve_service_type, build_deployment, build_service,
}
use k8s_container_service_pr.Kubernetes.Store.{
  StoreError, create, create_objects, create_service, create_labels,
}

ok≢err : {E A : Type 0} {e : E} {a : A} → ok a ≡ err e → ⊥
ok≢err h = cc

filter-All : {A : Type 0} (p : A → Bool) (xs : List A) → All (λ x. p x ≡ true) xs → filter p xs ≡ xs
filter-All p [] h = refl
filter-All p (x ∷ xs) h = rw (h.0, filter-All p xs h.1)

-- Taking out the one element that fails a test.
filter_inserted :
    {A : Type 0} (p : A → Bool) (before after : List A) (x : A)
    → All (λ y. p y ≡ true) (before ++ after)
    → p x ≡ false
    → filter p (before ++ x ∷ after) ≡ before ++ after
filter_inserted p [] after x h e = rw e (filter-All p after h)
filter_inserted p (b ∷ before) after x h e = rw (h.0, filter_inserted p before after x h.1 e)

others :
    {Q : Type 0} (name : String) (ds : List (Deployment Q))
    → All (λ (d : Deployment Q). (d.name == name) ≡ false) ds
    → All (λ (d : Deployment Q). not (d.name == name) ≡ true) ds
others name [] h = tt
others name (d ∷ ds) h = (rw h.0, others name ds h.1)

-- Deleting by its name the deployment that was inserted gives the list before.
without-Inserted :
    {Q : Type 0} (d : Deployment Q) (xs ys : List (Deployment Q))
    → All (λ (e : Deployment Q). (e.name == d.name) ≡ false) xs
    → Inserted d xs ys
    → without_deployment d.name ys ≡ xs
without-Inserted d xs ys fresh (before, after, p, q) =
    rw (q, p)
      (filter_inserted (λ e. not (e.name == d.name)) before after d
        (others d.name (before ++ after) (subst (All (λ e. (e.name == d.name) ≡ false)) p fresh))
        (rw (eq_refl d.name)))

module _ {W E Q : Type 0} (client : Client W E Q) (quantities : QuantityLib Q)
    (labels_lib : LabelLib) (cfg : K8sConfig) where
  open client use {create_service as create_s, delete_deployment as delete_d}

  -- The service of a new container, as it is asked for.
  abbrev service_for : ContainerSpec → String → Service
  service_for spec id =
      let ports = ports_with_visibility spec in
      build_service spec id cfg (create_labels client quantities labels_lib cfg spec id)
        (resolve_service_type cfg ports) ports

  -- In the run of Create from here, the deletion that takes back the new deployment is answered, if it
  -- comes to it: no other container of the instance is found, there are ports to expose, the deployment
  -- is created, and its service is not.
  abbrev pub RollsBack : ContainerSpec → String → W → Type 0
  RollsBack spec id w =
      let (existing, u) =
        client.list_deployments request cfg.namespace (Dcm.instance_selector labels_lib id) w in
      let (made, v) =
        client.create_deployment request cfg.namespace
          (build_deployment quantities spec id cfg
            (create_labels client quantities labels_lib cfg spec id))
          u in
      let (exposed, x) = create_s request cfg.namespace (service_for spec id) v in
      (d : Deployment Q) (e : E)
      → existing ≡ ok []
      → is_empty (ports_with_visibility spec) ≡ false
      → made ≡ ok d
      → exposed ≡ err e
      → (delete_d (detached 30) cfg.namespace d.name x).0 ≡ ok tt

module _ {W E Q : Type 0} (client : Client W E Q) (quantities : QuantityLib Q)
    (labels_lib : LabelLib) (cfg : K8sConfig) (view : View W Q)
    (laws : ClientLaws client labels_lib view) where
  open client use {
    list_deployments as list_d, create_deployment as create_d, create_service as create_s,
    delete_deployment as delete_d,
  }

  abbrev ns : String
  ns = cfg.namespace

  create_service-failed :
      (spec : ContainerSpec) (id : String) (labels : Labels) (ports : List ContainerPort)
      (d : Deployment Q) (w : W) (f : StoreError E)
      → ((e : E)
          → is_empty ports ≡ false
          → (create_s request ns
              (build_service spec id cfg labels (resolve_service_type cfg ports) ports)
              w).0
            ≡ err e
          → (delete_d
              (detached 30)
              ns
              d.name
              (create_s request ns
                (build_service spec id cfg labels (resolve_service_type cfg ports) ports)
                w).1).0
            ≡ ok tt)
      → (create_service client quantities labels_lib cfg spec id labels ports d w).0 ≡ err f
      → (view.deployments
            (create_service client quantities labels_lib cfg spec id labels ports d w).1
            ns
          ≡ without_deployment d.name (view.deployments w ns))
        × SameServices view ns w
            (create_service client quantities labels_lib cfg spec id labels ports d w).1
  unfolding create_service
  create_service-failed spec id labels [] d w f deletes h = absurd (ok≢err h)
  create_service-failed spec id labels (p ∷ ps) d w f deletes h =
      let svc = build_service spec id cfg labels (resolve_service_type cfg (p ∷ ps)) (p ∷ ps) in
      let w' = (create_s request ns svc w).1 in
      elim (Result-cases (create_s request ns svc w).0) [
        | inl (s, made) ↦ absurd (ok≢err (rw made at h))
        | inr (e, failed) ↦
            let (same_d, same_s) = laws.create_service-failed request ns svc w e failed in
            let (gone, kept) =
              laws.delete_deployment-done (detached 30) ns d.name w' (deletes e refl failed) in
            rw failed (gone ∙ ap (without_deployment d.name) same_d, kept ∙ same_s)
      ]

  create_objects-failed :
      (spec : ContainerSpec) (id : String) (f : StoreError E) (w : W)
      → ((d : Deployment Q) (e : E)
          → is_empty (ports_with_visibility spec) ≡ false
          → (create_d request ns
              (build_deployment quantities spec id cfg
                (create_labels client quantities labels_lib cfg spec id))
              w).0
            ≡ ok d
          → (create_s request ns
              (service_for client quantities labels_lib cfg spec id)
              (create_d request ns
                (build_deployment quantities spec id cfg
                  (create_labels client quantities labels_lib cfg spec id))
                w).1).0
            ≡ err e
          → (delete_d
              (detached 30)
              ns
              d.name
              (create_s request ns
                (service_for client quantities labels_lib cfg spec id)
                (create_d request ns
                  (build_deployment quantities spec id cfg
                    (create_labels client quantities labels_lib cfg spec id))
                  w).1).1).0
            ≡ ok tt)
      → (create_objects client quantities labels_lib cfg spec id w).0 ≡ err f
      → SameDeployments view ns w (create_objects client quantities labels_lib cfg spec id w).1
        × SameServices view ns w (create_objects client quantities labels_lib cfg spec id w).1
  unfolding create_objects
  create_objects-failed spec id f w deletes h =
      let labels = create_labels client quantities labels_lib cfg spec id in
      let new = build_deployment quantities spec id cfg labels in
      let ports = ports_with_visibility spec in
      let w2 = (create_d request ns new w).1 in
      elim (Result-cases (create_d request ns new w).0) [
        | inr (e, failed) ↦ rw failed (laws.create_deployment-failed request ns new w e failed)
        | inl (d, made) ↦
            let (same, fresh, inserted, services) =
              laws.create_deployment-done request ns new d w made in
            elim (Result-cases
              (create_service client quantities labels_lib cfg spec id labels ports d w2).0) [
                | inl (u, done) ↦ absurd (ok≢err (rw (made, done) at h))
                | inr (e, failed) ↦
                    let (gone, kept) =
                      create_service-failed spec id labels ports d w2 e
                        (λ x some_port refused. deletes d x some_port made refused) failed in
                    rw (made, failed)
                      (gone ∙ without-Inserted d _ _ fresh inserted, kept ∙ services)
              ]
      ]

  create_listed-failed :
      (spec : ContainerSpec) (id : String) (f : StoreError E) (w : W) (ds : List (Deployment Q))
      → RollsBack client quantities labels_lib cfg spec id w
      → (list_d request ns (Dcm.instance_selector labels_lib id) w).0 ≡ ok ds
      → (create client quantities labels_lib cfg spec id w).0 ≡ err f
      → SameDeployments view ns w (create client quantities labels_lib cfg spec id w).1
        × SameServices view ns w (create client quantities labels_lib cfg spec id w).1
  unfolding create
  create_listed-failed spec id f w (d ∷ ds) deletes listed h =
      let kept = laws.list_deployments-keeps request ns (Dcm.instance_selector labels_lib id) w in
      rw listed (kept.0, kept.1)
  create_listed-failed spec id f w [] deletes listed h =
      let sel = Dcm.instance_selector labels_lib id in
      let kept = laws.list_deployments-keeps request ns sel w in
      let (same_d, same_s) =
        create_objects-failed spec id f (list_d request ns sel w).1
          (λ d e some_port made refused. deletes d e listed some_port made refused)
          (rw listed at h) in
      rw listed (same_d ∙ kept.0, same_s ∙ kept.1)

  -- A Create that returns an error leaves the deployments and the services as they were, where the
  -- deletion of the deployment that it has created is answered, if it comes to it.
  pub create-failed :
      (spec : ContainerSpec) (id : String) (f : StoreError E) (w : W)
      → RollsBack client quantities labels_lib cfg spec id w
      → (create client quantities labels_lib cfg spec id w).0 ≡ err f
      → SameDeployments view ns w (create client quantities labels_lib cfg spec id w).1
        × SameServices view ns w (create client quantities labels_lib cfg spec id w).1
  unfolding create
  create-failed spec id f w deletes h =
      let sel = Dcm.instance_selector labels_lib id in
      elim (Result-cases (list_d request ns sel w).0) [
        | inl (ds, listed) ↦ create_listed-failed spec id f w ds deletes listed h
        | inr (e, failed) ↦
            let kept = laws.list_deployments-keeps request ns sel w in rw failed (kept.0, kept.1)
      ]
