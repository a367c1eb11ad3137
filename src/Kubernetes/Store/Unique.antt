-- ===== src/Kubernetes/Store/Unique.antt =====
-- The invariant that no two deployments are of one instance, under Create and Delete.
use k8s_container_service_pr.Base.{
  String, Bool, true, not, List, [], ◌∷◌, ◌++◌, ◌==◌, ◌≡◌, refl, sym, ap, ◌∙◌, inl, inr, arith,
  length-filter_comm-le, filter, ok, Result-cases, Bool-cases, Option-cases, lookup, length, suc,
  filter-append, length-append, eq_iff, if◌then◌else◌, ◌≤◌,
}
use mathlib.Core.Path.{subst}
use native.Mathlib.Nat.{le_trans}
use k8s_container_service_pr.Api.{ContainerSpec, Container}
use k8s_container_service_pr.Dcm
use k8s_container_service_pr.Dcm.{LabelLib, LabelLaws, instance_labels, matches}
use k8s_container_service_pr.Units.{QuantityLib}
use k8s_container_service_pr.Kube.{Deployment, Client}
use k8s_container_service_pr.Kube.Laws.{View, ClientLaws}
use k8s_container_service_pr.Kubernetes.Convert.{K8sConfig}
use k8s_container_service_pr.Kubernetes.Build.{build_deployment}
use k8s_container_service_pr.Kubernetes.Store.{create, create_labels, delete}
use k8s_container_service_pr.Dcm.Laws.{merge_labels-reserved, matches-instance}
use k8s_container_service_pr.Kubernetes.Store.Create.{create-done}
use k8s_container_service_pr.Kubernetes.Store.Rollback.{RollsBack, create-failed}
use k8s_container_service_pr.Kubernetes.Store.Delete.{delete-done}
use k8s_container_service_pr.Kubernetes.Store.Delete.Failed.{delete-failed}

length-inserted :
    {A : Type 0} (p : A → Bool) (before after : List A) (x : A)
    → length (filter p (before ++ x ∷ after)) ≡ (
        if p x
        then suc (length (filter p (before ++ after)))
        else length (filter p (before ++ after)))
length-inserted p before after x = elim (Bool-cases (p x)) [
  | inl e ↦
      rw (filter-append p before (x ∷ after), filter-append p before after, e)
        (omega (
          arith,
          length-append (filter p before) (x ∷ filter p after),
          length-append (filter p before) (filter p after),
        ))
  | inr e ↦ rw (filter-append p before (x ∷ after), filter-append p before after, e)
]

module _ {W E Q : Type 0} (client : Client W E Q) (quantities : QuantityLib Q)
    (labels_lib : LabelLib) (cfg : K8sConfig) (view : View W Q)
    (laws : ClientLaws client labels_lib view) (label_laws : LabelLaws labels_lib) where
  open client use {
    list_deployments as list_d, create_deployment as create_d, create_service as create_s,
    delete_deployment as delete_d,
  }

  abbrev ns : String
  ns = cfg.namespace

  abbrev pub instances : String → W → List (Deployment Q)
  instances id w = filter (λ d. matches (instance_labels id) d.labels) (view.deployments w ns)

  -- Every instance ID has at most one deployment.
  unfoldable pub IsUnique : W → Type 0
  IsUnique w = (id : String) → length (instances id w) ≤ 1

  create_labels-reserved :
      (k : String) (spec : ContainerSpec) (id : String)
      → Dcm.is_reserved k ≡ true
      → lookup k (create_labels client quantities labels_lib cfg spec id) ≡ lookup k (Dcm.labels id)
  unfolding create_labels
  create_labels-reserved k spec id h = elim (Option-cases spec.metadata.labels) [
    | inl e ↦ rw e
    | inr (user, e) ↦ rw e (merge_labels-reserved labels_lib label_laws k id user h)
  ]

  pub matches-create_labels :
      (spec : ContainerSpec) (id id' : String)
      → matches (instance_labels id') (create_labels client quantities labels_lib cfg spec id)
        ≡ (id == id')
  unfolding Dcm.is_reserved Dcm.labels lookup
  matches-create_labels spec id id' =
      matches-instance (create_labels client quantities labels_lib cfg spec id) id id'
        (create_labels-reserved Dcm.label_instance_id spec id refl)
        (create_labels-reserved Dcm.label_managed_by spec id refl)

  -- Create keeps the invariant when it succeeds.
  create_ok-IsUnique :
      (spec : ContainerSpec) (id : String) (c : Container) (w : W)
      → (create client quantities labels_lib cfg spec id w).0 ≡ ok c
      → IsUnique w
      → IsUnique (create client quantities labels_lib cfg spec id w).1
  unfolding IsUnique build_deployment create_labels
  create_ok-IsUnique spec id c w h unique id' =
      let (nothing, (d, same, fresh, (before, after, p, q), made, result)) =
        create-done client quantities labels_lib cfg view laws spec id c w h in
      let mine = (λ (e : Deployment Q). matches (instance_labels id') e.labels) in
      let new : matches (instance_labels id') d.labels ≡ (id == id') =
        ap (matches (instance_labels id')) same.0 ∙ matches-create_labels spec id id' in
      let count = ap (λ l. length (filter mine l)) q ∙ length-inserted mine before after d in
      let old = ap (λ l. length (filter mine l)) p in
      elim (Bool-cases (id == id')) [
        | inl e ↦
            let none_yet = ap length (
              subst
                (λ i.
                  filter (λ (e : Deployment Q). matches (instance_labels i) e.labels)
                    (view.deployments w ns)
                  ≡ [])
                ((eq_iff id id').0 e) nothing) in
            omega (arith, rw (new, e) at count, old, none_yet)
        | inr e ↦ omega (arith, rw (new, e) at count, old, unique id')
      ]

  -- Create keeps the invariant, whether it succeeds or fails, where its rollback is answered.
  pub create-IsUnique :
      (spec : ContainerSpec) (id : String) (w : W)
      → RollsBack client quantities labels_lib cfg spec id w
      → IsUnique w
      → IsUnique (create client quantities labels_lib cfg spec id w).1
  unfolding IsUnique
  create-IsUnique spec id w deletes unique id' =
      elim (Result-cases (create client quantities labels_lib cfg spec id w).0) [
        | inl (c, h) ↦ create_ok-IsUnique spec id c w h unique id'
        | inr (f, h) ↦
            let (same, kept) =
              create-failed client quantities labels_lib cfg view laws spec id f w deletes h in
            subst
              (λ l.
                length (filter (λ (e : Deployment Q). matches (instance_labels id') e.labels) l)
                ≤ 1)
              (sym same) (unique id')
      ]

  -- Delete keeps the invariant, whether it succeeds or fails.
  pub delete-IsUnique :
      (id : String) (w : W) → IsUnique w → IsUnique (delete client quantities labels_lib cfg id w).1
  unfolding IsUnique
  delete-IsUnique id w unique id' =
      let mine = (λ (e : Deployment Q). matches (instance_labels id') e.labels) in
      elim (Result-cases (delete client quantities labels_lib cfg id w).0) [
        | inl (t, h) ↦
            let (gone, (d, one, left)) =
              delete-done client quantities labels_lib cfg view laws id w h in
            subst (λ l. length (filter mine l) ≤ 1) (sym left)
              (le_trans
                (length-filter_comm-le mine (λ e. not (e.name == d.name)) (view.deployments w ns))
                (unique id'))
        | inr (f, h) ↦
            subst (λ l. length (filter mine l) ≤ 1)
              (sym (delete-failed client quantities labels_lib cfg view laws id f w h)) (unique id')
      ]

  -- Create and Delete, successful or not, keep the invariant, where the deletion of the deployment that
  -- Create has created is answered, if it comes to it.
  pub writes-IsUnique :
      (spec : ContainerSpec) (id : String) (w : W)
      → RollsBack client quantities labels_lib cfg spec id w
      → IsUnique w
      → IsUnique (create client quantities labels_lib cfg spec id w).1
        × IsUnique (delete client quantities labels_lib cfg id w).1
  writes-IsUnique spec id w deletes unique =
      (create-IsUnique spec id w deletes unique, delete-IsUnique id w unique)
