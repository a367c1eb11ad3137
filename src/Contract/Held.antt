-- ===== src/Contract/Held.antt =====
-- The map of containers that a cluster stands for, and how a new and a deleted deployment change it.
use k8s_container_service_pr.Base.{
  String, true, none, some, List, [], ◌∷◌, ◌++◌, ◌≡◌, ◌≢◌, refl, ap, ◌∙◌, inl, inr, ◌==◌, filter,
  Bool-cases, if◌then◌else◌, All-filter_holds, All, eq_iff,
}
use mathlib.Core.Path.{subst}
use k8s_container_service_pr.Api.{ContainerSpec}
use k8s_container_service_pr.Dcm.{LabelLib, LabelLaws, instance_labels, matches}
use k8s_container_service_pr.Dcm.Laws.{matches-other}
use k8s_container_service_pr.Units.{QuantityLib}
use k8s_container_service_pr.Kube.{Deployment, Client}
use k8s_container_service_pr.Kube.Laws.{View, SameDeployments, ClientLaws, without_deployment}
use k8s_container_service_pr.Kubernetes.Convert.{K8sConfig}
use k8s_container_service_pr.Kubernetes.Build.{build_container}
use k8s_container_service_pr.Kubernetes.Store.{create_labels}
use k8s_container_service_pr.Kubernetes.Store.Unique.{IsUnique, matches-create_labels}
use k8s_container_service_pr.Contract.{
  Abstract, Stored, first_of, stored_from, stored_of, abstraction, Unchanged,
}
use k8s_container_service_pr.Kube.Distinct.{
  Distinct, filter-inserted, filter-inserted_other, filter-without_deployment,
}

pub first_of-none : {Q : Type 0} (ds : List (Deployment Q)) → ds ≢ [] → first_of ds ≢ none
first_of-none [] h e = h refl
first_of-none (d ∷ ds) h e = absurd (some≢none e)
  where
    some≢none : {A : Type 0} {a : A} → some a ≡ none → ⊥
    some≢none e = cc

stored_eq : {Q : Type 0} (x y : Stored Q) → x.labels ≡ y.labels → x.container ≡ y.container → x ≡ y
stored_eq x y l c = cc

pub one≢none : {A : Type 0} {a : A} {xs : List A} → xs ≡ a ∷ [] → xs ≢ []
one≢none e n = cc

module _ {W E Q : Type 0} (client : Client W E Q) (quantities : QuantityLib Q)
    (labels_lib : LabelLib) (cfg : K8sConfig) (view : View W Q)
    (laws : ClientLaws client labels_lib view) (label_laws : LabelLaws labels_lib) where
  abbrev ns : String
  ns = cfg.namespace

  abbrev pub held : W → Abstract Q
  held w = abstraction view ns w

  abbrev pub Unique : W → Type 0
  Unique w = IsUnique client quantities labels_lib cfg view laws label_laws w

  -- The deployments have distinct names, and no two are of one instance.
  abbrev pub IsSound : W → Type 0
  IsSound w = Unique w × Distinct (view.deployments w ns)

  pub Unchanged-same : (w v : W) → SameDeployments view ns w v → Unchanged (held w) (held v)
  Unchanged-same w v same i =
      ap (λ ds. first_of (filter (λ (d : Deployment Q). matches (instance_labels i) d.labels) ds))
        same

  -- What a new deployment does to the map.
  pub held-inserted :
      (w v : W) (spec : ContainerSpec) (id : String) (before after : List (Deployment Q))
      (d : Deployment Q)
      → view.deployments w ns ≡ before ++ after
      → view.deployments v ns ≡ before ++ d ∷ after
      → (d.labels ≡ create_labels client quantities labels_lib cfg spec id)
      → (d.container ≡ build_container quantities spec)
      → filter (λ (e : Deployment Q). matches (instance_labels id) e.labels) (view.deployments w ns)
        ≡ []
      → (i : String)
      → held v i ≡ (
          if id == i then some (stored_from client quantities labels_lib cfg spec id) else held w i)
  held-inserted w v spec id before after d p q same_l same_c nothing i =
      let mine = λ (e : Deployment Q). matches (instance_labels i) e.labels in
      let new : mine d ≡ (id == i) =
        ap (matches (instance_labels i)) same_l
        ∙ matches-create_labels client quantities labels_lib cfg view laws label_laws spec id i in
      elim (Bool-cases (id == i)) [
        | inl e ↦
            let yet : filter mine (before ++ after) ≡ [] =
              subst (λ ds. filter mine ds ≡ []) p
                (subst
                  (λ k.
                    filter (λ (e : Deployment Q). matches (instance_labels k) e.labels)
                      (view.deployments w ns)
                    ≡ [])
                  ((eq_iff id i).0 e) nothing) in
            rw (e, q)
              (ap first_of (filter-inserted mine before after d (new ∙ e) yet)
                ∙ ap some (
                    stored_eq (stored_of d) (stored_from client quantities labels_lib cfg spec id)
                      same_l same_c))
        | inr e ↦ rw (e, q, p, filter-inserted_other mine before after d (new ∙ e)) refl
      ]

  -- What the deletion of the one deployment of an instance does to the map.
  pub held-without :
      (w v : W) (id : String) (d : Deployment Q)
      → Distinct (view.deployments w ns)
      → filter (λ (e : Deployment Q). matches (instance_labels id) e.labels) (view.deployments w ns)
        ≡ d ∷ []
      → filter (λ (e : Deployment Q). matches (instance_labels id) e.labels) (view.deployments v ns)
        ≡ []
      → view.deployments v ns ≡ without_deployment d.name (view.deployments w ns)
      → (i : String) → held v i ≡ (if id == i then none else held w i)
  held-without w v id d distinct one gone left i =
      let of = λ (k : String) (e : Deployment Q). matches (instance_labels k) e.labels in
      elim (Bool-cases (id == i)) [
        | inl e ↦ rw e (
            ap first_of
              (subst (λ k. filter (of k) (view.deployments v ns) ≡ []) ((eq_iff id i).0 e) gone))
        | inr e ↦
            let mine : of id d ≡ true =
              (subst (All (λ (x : Deployment Q). of id x ≡ true)) one
                (All-filter_holds (of id) (view.deployments w ns))).0 in
            let other = matches-other d.labels id i mine e in
            rw (e, left)
              (ap first_of (
                filter-without_deployment (of i) (of id) d other (view.deployments w ns) distinct
                  one))
      ]
