-- ===== src/Kubernetes/Paging/Reads.antt =====
-- What Get and List of internal/kubernetes leave in the cluster.
use k8s_container_service_pr.Base.{
  ℕ, String, some, List, [], ◌∷◌, ◌∙◌, refl, inl, inr, Bool-cases, Result, Result-cases, length, ok,
  err, lookup, or_empty,
}
use k8s_container_service_pr.Base.Int.{ℤ}
use k8s_container_service_pr.Base.Exec.{Exec, ◌>>=◌, continue, handle, pure, raise}
use k8s_container_service_pr.Api.{Container}
use k8s_container_service_pr.Dcm
use k8s_container_service_pr.Dcm.{LabelLib}
use k8s_container_service_pr.Units.{QuantityLib}
use k8s_container_service_pr.Kube.{Deployment, Pod, Client, request}
use k8s_container_service_pr.Kube.Laws.{View, SameObjects, ClientLaws}
use k8s_container_service_pr.Kubernetes.Convert.{K8sConfig, container_from_deployment}
use k8s_container_service_pr.Kubernetes.Store.{
  StoreError, client_error, call, single_deployment, find_deployment, enrich_with_pods,
  enrich_from_cluster, build_container, get, is_rolling_update, enrich_with_services,
}
use k8s_container_service_pr.Kubernetes.Paging.{
  build_containers, list_from, list, decode_page_token, page_size, page_of, next_token,
  sort_by_name,
}

module _ {W E Q : Type 0} (client : Client W E Q) (quantities : QuantityLib Q)
    (labels_lib : LabelLib) (cfg : K8sConfig) (view : View W Q)
    (laws : ClientLaws client labels_lib view) where
  abbrev ns : String
  ns = cfg.namespace

  -- A call after which the objects of the namespace are as they were.
  abbrev Reads : {F A : Type 0} → Exec W F A → Type 0
  Reads m = (w : W) → SameObjects view ns w (m w).1

  then_reads :
      {w v u : W} → SameObjects view ns w v → SameObjects view ns v u → SameObjects view ns w u
  then_reads f g = (g.0 ∙ f.0, g.1 ∙ f.1, g.2 ∙ f.2)

  Reads-bind :
      {A B F : Type 0} (m : Exec W F A) (f : A → Exec W F B)
      → Reads m
      → ((a : A) → Reads (f a))
      → Reads (m >>= f)
  Reads-bind {A = A} {F = F} m f rm rf w = after (m w).0 (m w).1 (rm w)
    where
      after :
          (r : Result F A) (v : W)
          → SameObjects view ns w v
          → SameObjects view ns w (continue r f v).1
      after (ok a) v same = then_reads same (rf a v)
      after (err e) v same = same

  Reads-call :
      {A : Type 0} (m : Exec W E A) → Reads m → Reads (call client quantities labels_lib cfg m)
  Reads-call {A = A} m rm w = after (m w).0 (m w).1 (rm w)
    where
      after :
          (r : Result E A) (v : W)
          → SameObjects view ns w v
          → SameObjects view ns w (handle r (λ e. raise (client_error e)) v).1
      after (ok a) v same = same
      after (err e) v same = same

  single_deployment-Reads :
      (id : String) (ds : List (Deployment Q)) → Reads (single_deployment {W = W} {E = E} id ds)
  unfolding single_deployment
  single_deployment-Reads id [] w = (refl, refl, refl)
  single_deployment-Reads id (d ∷ []) w = (refl, refl, refl)
  single_deployment-Reads id (d ∷ e ∷ ds) w = (refl, refl, refl)

  enrich_with_pods-Reads :
      (id : String) (d : Deployment Q) (ps : List Pod) (c : Container)
      → Reads (enrich_with_pods client quantities labels_lib cfg id d ps c)
  unfolding enrich_with_pods
  enrich_with_pods-Reads id d [] c w = (refl, refl, refl)
  enrich_with_pods-Reads id d (p ∷ []) c w = (refl, refl, refl)
  enrich_with_pods-Reads id d (p ∷ q ∷ []) c w = elim (Bool-cases (is_rolling_update d)) [
    | inl e ↦ rw e (refl, refl, refl)
    | inr e ↦ rw e (refl, refl, refl)
  ]
  enrich_with_pods-Reads id d (p ∷ q ∷ r ∷ ps) c w = (refl, refl, refl)

  -- The last call of enrichFromCluster, and what follows.
  enrich_services-Reads :
      (id : String) (c : Container)
      → Reads (
          call client quantities labels_lib cfg
            (client.list_services request ns (Dcm.instance_selector labels_lib id))
          >>= λ ss. pure (enrich_with_services ss c))
  unfolding Dcm.instance_selector
  enrich_services-Reads id c =
      let m = client.list_services request ns (Dcm.instance_selector labels_lib id) in
      Reads-bind {F = StoreError E} (call client quantities labels_lib cfg m)
        (λ ss. pure (enrich_with_services ss c))
        (Reads-call m (laws.list_services-keeps request ns (Dcm.instance_selector labels_lib id)))
        (λ ss w. (refl, refl, refl))

  enrich_from_cluster-Reads :
      (c : Container) (d : Deployment Q) (id : String)
      → Reads (enrich_from_cluster client quantities labels_lib cfg c d id)
  unfolding enrich_from_cluster
  enrich_from_cluster-Reads c d id =
      let m = client.list_pods request ns (Dcm.instance_selector labels_lib id) in
      let rest = λ (c' : Container).
        call client quantities labels_lib cfg
          (client.list_services request ns (Dcm.instance_selector labels_lib id))
        >>= λ ss. pure {E = StoreError E} (enrich_with_services ss c') in
      Reads-bind {F = StoreError E} (call client quantities labels_lib cfg m)
        (λ ps. enrich_with_pods client quantities labels_lib cfg id d ps c >>= rest)
        (Reads-call m (laws.list_pods-keeps request ns (Dcm.instance_selector labels_lib id)))
        (λ ps.
          Reads-bind {F = StoreError E}
            (enrich_with_pods client quantities labels_lib cfg id d ps c) rest
            (enrich_with_pods-Reads id d ps c) (enrich_services-Reads id))

  build_container-Reads :
      (d : Deployment Q) (id : String)
      → Reads (build_container client quantities labels_lib cfg d id)
  unfolding build_container
  build_container-Reads d id =
      enrich_from_cluster-Reads (container_from_deployment quantities d id) d id

  find_deployment-Reads :
      (id : String) → Reads (find_deployment client quantities labels_lib cfg id)
  unfolding find_deployment
  find_deployment-Reads id =
      let m = client.list_deployments request ns (Dcm.instance_selector labels_lib id) in
      Reads-bind {F = StoreError E} (call client quantities labels_lib cfg m) (single_deployment id)
        (Reads-call m
          (laws.list_deployments-keeps request ns (Dcm.instance_selector labels_lib id)))
        (single_deployment-Reads id)

  build_containers-Reads :
      (ds : List (Deployment Q)) → Reads (build_containers client quantities labels_lib cfg ds)
  unfolding build_containers
  build_containers-Reads [] = λ w. (refl, refl, refl)
  build_containers-Reads (d ∷ ds) =
      let one =
        build_container client quantities labels_lib cfg d
          (or_empty (lookup Dcm.label_instance_id d.labels)) in
      Reads-bind {F = StoreError E} one
        (λ c. build_containers client quantities labels_lib cfg ds >>= λ cs.
          pure {E = StoreError E} (c ∷ cs))
        (build_container-Reads d (or_empty (lookup Dcm.label_instance_id d.labels)))
        (λ c.
          Reads-bind {F = StoreError E} (build_containers client quantities labels_lib cfg ds)
            (λ cs. pure (c ∷ cs)) (build_containers-Reads ds) (λ cs w. (refl, refl, refl)))

  get-Reads : (id : String) → Reads (get client quantities labels_lib cfg id)
  unfolding get
  get-Reads id =
      Reads-bind {F = StoreError E} (find_deployment client quantities labels_lib cfg id)
        (λ d. build_container client quantities labels_lib cfg d id) (find_deployment-Reads id)
        (λ d. build_container-Reads d id)

  list_from-Reads :
      (size offset : ℕ) → Reads (list_from client quantities labels_lib cfg size offset)
  unfolding list_from
  list_from-Reads size offset =
      let m = client.list_deployments request ns (Dcm.selector labels_lib) in
      let answer = λ (ds : List (Deployment Q)) (cs : List Container).
        pure {W = W} {E = StoreError E} (record {
          containers = some cs;
          next_page_token = next_token offset size (length (sort_by_name ds));
        }) in
      Reads-bind {F = StoreError E} (call client quantities labels_lib cfg m)
        (λ ds.
          build_containers client quantities labels_lib cfg (page_of offset size (sort_by_name ds))
          >>= answer ds)
        (Reads-call m (laws.list_deployments-keeps request ns (Dcm.selector labels_lib)))
        (λ ds.
          Reads-bind {F = StoreError E}
            (build_containers client quantities labels_lib cfg
              (page_of offset size (sort_by_name ds)))
            (answer ds) (build_containers-Reads (page_of offset size (sort_by_name ds)))
            (λ cs w. (refl, refl, refl)))

  list-Reads :
      (max_page_size : ℤ) (page_token : String)
      → Reads (list client quantities labels_lib cfg max_page_size page_token)
  unfolding list
  list-Reads max_page_size page_token w =
      elim (Result-cases (decode_page_token {E = E} page_token)) [
        | inl (offset, e) ↦ rw (list, e) (list_from-Reads (page_size max_page_size) offset w)
        | inr (f, e) ↦ rw (list, e) (refl, refl, refl)
      ]

  -- Reading one container and listing a page change no deployment, service or pod, whatever they
  -- answer.
  pub reads-SameObjects :
      (id : String) (max_page_size : ℤ) (page_token : String) (w : W)
      → SameObjects view ns w (get client quantities labels_lib cfg id w).1
        × SameObjects view ns w (list client quantities labels_lib cfg max_page_size page_token w).1
  reads-SameObjects id max_page_size page_token w =
      (get-Reads id w, list-Reads max_page_size page_token w)
