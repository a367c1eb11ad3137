-- ===== src/Kubernetes/Paging/Listing.antt =====
-- A page as List answers it: its size and its token.
use k8s_container_service_pr.Base.{
  ℕ, suc, ◌-◌, ◌≡◌, refl, sym, ap, ◌∙◌, String, some, List, [], ◌∷◌, length, min, Result, ok, err,
  Result-cases, inl, inr, length-drop, length-take, Bool-cases, lookup, or_empty,
}
use mathlib.Core.Path.{subst}
use k8s_container_service_pr.Base.Int.{ℤ}
use k8s_container_service_pr.Api.{Container, ContainerList}
use k8s_container_service_pr.Dcm
use k8s_container_service_pr.Dcm.{LabelLib}
use k8s_container_service_pr.Units.{QuantityLib}
use k8s_container_service_pr.Kube.{Deployment, Client, request}
use k8s_container_service_pr.Kubernetes.Convert.{K8sConfig, container_from_deployment}
use k8s_container_service_pr.Kubernetes.Enrich.Kept.{Kept}
use k8s_container_service_pr.Kubernetes.Store.Answers.{build_container-Kept}
use k8s_container_service_pr.Kubernetes.Store.{StoreError, build_container}
use k8s_container_service_pr.Kubernetes.Paging.{
  page_size, decode_page_token, page_of, next_token, sort_by_name, insert_by_name, name_lt,
  build_containers, list_from, list,
}

err≢ok : {E A : Type 0} {e : E} {a : A} → err e ≡ ok a → ⊥
err≢ok h = cc

ok_inj : (E : Type 0) {A : Type 0} {a b : A} → ◌≡◌ {A = Result E A} (ok a) (ok b) → a ≡ b
ok_inj E h = cc

length-insert_by_name :
    {Q : Type 0} (d : Deployment Q) (ds : List (Deployment Q))
    → length (insert_by_name d ds) ≡ suc (length ds)
unfolding insert_by_name
length-insert_by_name d [] = refl
length-insert_by_name d (e ∷ es) = elim (Bool-cases (name_lt e d)) [
  | inl h ↦ rw h (ap suc (length-insert_by_name d es))
  | inr h ↦ rw h
]

pub length-sort_by_name :
    {Q : Type 0} (ds : List (Deployment Q)) → length (sort_by_name ds) ≡ length ds
unfolding sort_by_name
length-sort_by_name [] = refl
length-sort_by_name (d ∷ ds) =
    length-insert_by_name d (sort_by_name ds) ∙ ap suc (length-sort_by_name ds)

length-page_of :
    {A : Type 0} (offset size : ℕ) (xs : List A)
    → length (page_of offset size xs) ≡ min size (length xs - offset)
unfolding page_of
length-page_of offset size xs = rw (length-take, length-drop)

module _ {W E Q : Type 0} (client : Client W E Q) (quantities : QuantityLib Q)
    (labels_lib : LabelLib) (cfg : K8sConfig) where
  -- Each container is that of the deployment at its place, under the instance ID of its labels.
  abbrev pub Listed : List (Deployment Q) → List Container → Type 0
  Listed [] [] = Unit
  Listed [] (c ∷ cs) = ⊥
  Listed (d ∷ ds) [] = ⊥
  Listed (d ∷ ds) (c ∷ cs) =
      Kept
        (container_from_deployment quantities d (or_empty (lookup Dcm.label_instance_id d.labels)))
        c
      × Listed ds cs

  length-Listed :
      (ds : List (Deployment Q)) (cs : List Container) → Listed ds cs → length cs ≡ length ds
  length-Listed [] [] h = refl
  length-Listed [] (c ∷ cs) h = absurd h
  length-Listed (d ∷ ds) [] h = absurd h
  length-Listed (d ∷ ds) (c ∷ cs) h = ap suc (length-Listed ds cs h.1)

  build_containers-Listed :
      (ds : List (Deployment Q)) (cs : List Container) (w : W)
      → (build_containers client quantities labels_lib cfg ds w).0 ≡ ok cs
      → Listed ds cs
  unfolding build_containers
  build_containers-Listed [] cs w h = subst (Listed []) (ok_inj (StoreError E) h) tt
  build_containers-Listed (d ∷ ds) cs w h =
      let id = or_empty (lookup Dcm.label_instance_id d.labels) in
      let one = build_container client quantities labels_lib cfg d id in
      let kept = build_container-Kept client quantities labels_lib cfg d id w in
      elim (Result-cases (one w).0) [
        | inr (e, failed) ↦ absurd (err≢ok (rw failed at h))
        | inl (c, built) ↦
            elim (Result-cases (build_containers client quantities labels_lib cfg ds (one w).1).0) [
              | inr (e, failed) ↦ absurd (err≢ok (rw (built, failed) at h))
              | inl (more, rest) ↦
                  let found : ◌≡◌ {A = Result (StoreError E) (List Container)} (ok (c ∷ more))
                      (ok cs) =
                    rw (built, rest) at h in
                  subst (Listed (d ∷ ds)) (ok_inj (StoreError E) found)
                    (rw built at kept, build_containers-Listed ds more (one w).1 rest)
            ]
      ]

  -- A successful List of a page: where its token says an offset and the cluster has some containers,
  -- its containers are those of the deployments of the page, in the order of their names; there are as
  -- many as its size allows and are left from the offset on, and its token is that of the offset after
  -- it, or none at the end.
  pub list-page :
      (max_page_size : ℤ) (page_token : String) (w : W) (offset : ℕ) (ds : List (Deployment Q))
      (l : ContainerList)
      → decode_page_token {E = E} page_token ≡ ok offset
      → (client.list_deployments request cfg.namespace (Dcm.selector labels_lib) w).0 ≡ ok ds
      → (list client quantities labels_lib cfg max_page_size page_token w).0 ≡ ok l
      → (cs : List Container) × (l.containers ≡ some cs)
        × Listed (page_of offset (page_size max_page_size) (sort_by_name ds)) cs
        × (length cs ≡ min (page_size max_page_size) (length ds - offset))
        × (l.next_page_token ≡ next_token offset (page_size max_page_size) (length ds))
  unfolding list list_from
  list-page max_page_size page_token w offset ds l token listed h =
      let v = (client.list_deployments request cfg.namespace (Dcm.selector labels_lib) w).1 in
      let page = page_of offset (page_size max_page_size) (sort_by_name ds) in
      elim (Result-cases (build_containers client quantities labels_lib cfg page v).0) [
        | inr (e, failed) ↦ absurd (err≢ok (rw (list, token, listed, failed) at h))
        | inl (cs, built) ↦
            let result = ok_inj (StoreError E) (rw (list, token, listed, built) at h) in
            (
              cs,
              ap (λ (r : ContainerList). r.containers) (sym result),
              build_containers-Listed page cs v built,
              length-Listed page cs (build_containers-Listed page cs v built)
                  ∙ length-page_of offset (page_size max_page_size) (sort_by_name ds)
                  ∙ ap (λ n. min (page_size max_page_size) (n - offset)) (length-sort_by_name ds),
              ap (λ (r : ContainerList). r.next_page_token) (sym result)
                  ∙ ap (next_token offset (page_size max_page_size)) (length-sort_by_name ds),
            )
      ]
