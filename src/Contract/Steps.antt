-- ===== src/Contract/Steps.antt =====
-- What each call of the store does to the map, and what it answers.
use k8s_container_service_pr.Base.{
  String, false, none, some, ◌≡◌, ◌≢◌, ◌⊎◌, not, sym, ap, inl, inr, ◌==◌, ok, err, Result-cases,
  All,
}
use mathlib.Core.Path.{subst}
use k8s_container_service_pr.Base.Int.{pos}
use k8s_container_service_pr.Api.{ContainerSpec, Container, ContainerImage}
use k8s_container_service_pr.Dcm.{LabelLib, LabelLaws}
use k8s_container_service_pr.Units.{QuantityLib}
use k8s_container_service_pr.Kube.{Deployment, Client}
use k8s_container_service_pr.Kube.Laws.{View, ClientLaws}
use k8s_container_service_pr.Kubernetes.Store.Answers.{IsClientError}
use k8s_container_service_pr.Kubernetes.Convert.{K8sConfig, container_from_deployment}
use k8s_container_service_pr.Kubernetes.Build.{build_deployment}
use k8s_container_service_pr.Kubernetes.Store.{
  StoreError, conflict_error, not_found_error, multiple_pods, create, get, delete,
  new_container_result,
}
use k8s_container_service_pr.Kubernetes.Paging.Reads.{reads-SameObjects}
use k8s_container_service_pr.Kubernetes.Store.Create.{create-done}
use k8s_container_service_pr.Kubernetes.Store.Rollback.{RollsBack, create-failed}
use k8s_container_service_pr.Kubernetes.Store.Delete.{delete-done}
use k8s_container_service_pr.Kubernetes.Store.Delete.Failed.{delete-failed}
use k8s_container_service_pr.Kubernetes.Store.Unique.{IsUnique}
use k8s_container_service_pr.Contract.{
  create_call, get_call, delete_call, perform, new_k8s_container_store, Abstract, Stored, first_of,
  stored_of, Allowed, Describes, taken_id, taken_name,
}
use k8s_container_service_pr.Contract.Held.{
  first_of-none, one≢none, Unchanged-same, held-inserted, held-without, held, Unique,
}
use k8s_container_service_pr.Kube.Distinct.{Distinct, Distinct-filter, Distinct-inserted}
use k8s_container_service_pr.Contract.Outcomes.{get_lem, GetAnswer}
use k8s_container_service_pr.Contract.Writes.{
  create-refused, CreateRefused, delete-refused, DeleteRefused,
}

module _ {W E Q : Type 0} (client : Client W E Q) (quantities : QuantityLib Q)
    (labels_lib : LabelLib) (cfg : K8sConfig) (view : View W Q)
    (laws : ClientLaws client labels_lib view) (label_laws : LabelLaws labels_lib) where
  abbrev ns : String
  ns = cfg.namespace

  abbrev map_of : W → Abstract Q
  map_of w = held client quantities labels_lib cfg view laws label_laws w

  pub create-Allowed :
      (spec : ContainerSpec) (id : String) (w : W)
      → RollsBack client quantities labels_lib cfg spec id w
      → Allowed client quantities labels_lib cfg
          (map_of w)
          (map_of (create client quantities labels_lib cfg spec id w).1)
          (create_call spec id)
          (perform
            (new_k8s_container_store client quantities labels_lib cfg)
            (create_call spec id)
            w).0
  unfolding perform new_k8s_container_store build_deployment new_container_result
  create-Allowed spec id w deletes =
      elim (Result-cases (create client quantities labels_lib cfg spec id w).0) [
        | inl (c, h) ↦
            let (nothing, (d, same, fresh, (before, after, p, q), made, result)) =
              create-done client quantities labels_lib cfg view laws spec id c w h in
            rw h (
              ap first_of nothing,
              held-inserted client quantities labels_lib cfg view laws label_laws w _ spec id before
                  after d p q same.0 same.1 nothing,
              ap (λ (x : Container). x.id) result,
            )
        | inr (f, h) ↦
            let (same, services) =
              create-failed client quantities labels_lib cfg view laws spec id f w deletes h in
            rw h (
              Unchanged-same client quantities labels_lib cfg view laws label_laws w _ same,
              refusal
                  (rw h at (create-refused client quantities labels_lib cfg view laws spec id w)),
            )
      ]
    where
      refusal :
          {f : StoreError E}
          → CreateRefused client quantities labels_lib cfg view laws spec id w f
          → ((map_of w id ≢ none) × (f ≡ conflict_error (taken_id id)))
            ⊎ ((map_of w id ≡ none) × (f ≡ conflict_error (taken_name spec.metadata.name)))
            ⊎ IsClientError f
      refusal (inl (some_ds, e)) = inl (first_of-none _ some_ds, e)
      refusal (inr (inl (no_ds, e))) = inr (inl (ap first_of no_ds, e))
      refusal (inr (inr e)) = inr (inr e)

  pub create-Distinct :
      (spec : ContainerSpec) (id : String) (w : W)
      → RollsBack client quantities labels_lib cfg spec id w
      → Distinct (view.deployments w ns)
      → Distinct (view.deployments (create client quantities labels_lib cfg spec id w).1 ns)
  create-Distinct spec id w deletes distinct =
      elim (Result-cases (create client quantities labels_lib cfg spec id w).0) [
        | inl (c, h) ↦
            let (nothing, (d, same, fresh, (before, after, p, q), made, result)) =
              create-done client quantities labels_lib cfg view laws spec id c w h in
            subst Distinct (sym q) (
              Distinct-inserted before after d
                (subst (All (λ (e : Deployment Q). (e.name == d.name) ≡ false)) p fresh)
                (subst Distinct p distinct))
        | inr (f, h) ↦
            subst Distinct
              (sym
                (create-failed client quantities labels_lib cfg view laws spec id f w deletes h).0)
              distinct
      ]

  pub get-Allowed :
      (id : String) (w : W)
      → Unique client quantities labels_lib cfg view laws label_laws w
      → Allowed client quantities labels_lib cfg
          (map_of w)
          (map_of (get client quantities labels_lib cfg id w).1)
          (get_call id)
          (perform (new_k8s_container_store client quantities labels_lib cfg) (get_call id) w).0
  unfolding perform new_k8s_container_store IsUnique container_from_deployment
  get-Allowed id w unique =
      let same =
        (reads-SameObjects client quantities labels_lib cfg view laws id (pos 0) "" w).0.0 in
      let answer = get_lem client quantities labels_lib cfg view laws id w (unique id) in
      elim (Result-cases (get client quantities labels_lib cfg id w).0) [
        | inl (c, h) ↦ rw h (
          Unchanged-same client quantities labels_lib cfg view laws label_laws w _ same,
          described c (rw h at answer),
        )
        | inr (f, h) ↦ rw h (
          Unchanged-same client quantities labels_lib cfg view laws label_laws w _ same,
          refusal (rw h at answer),
        )
      ]
    where
      described :
          (c : Container)
          → GetAnswer client quantities labels_lib cfg view laws id w (ok c)
          → (x : Stored Q) × (map_of w id ≡ some x) × Describes quantities id x c
      described c (d, one, kept) = (
        stored_of d,
        ap first_of one,
        (kept.0, ap (λ (i : ContainerImage). i.reference) kept.3, kept.5, kept.6),
      )

      refusal :
          {f : StoreError E}
          → GetAnswer client quantities labels_lib cfg view laws id w (err f)
          → ((map_of w id ≡ none) × (f ≡ not_found_error id))
            ⊎ ((map_of w id ≢ none) × (f ≡ conflict_error (multiple_pods id)))
            ⊎ IsClientError f
      refusal (inl (no_ds, e)) = inl (ap first_of no_ds, e)
      refusal (inr (inl (some_ds, e))) = inr (inl (first_of-none _ some_ds, e))
      refusal (inr (inr e)) = inr (inr e)

  pub delete-Allowed :
      (id : String) (w : W)
      → Unique client quantities labels_lib cfg view laws label_laws w
      → Distinct (view.deployments w ns)
      → Allowed client quantities labels_lib cfg
          (map_of w)
          (map_of (delete client quantities labels_lib cfg id w).1)
          (delete_call id)
          (perform (new_k8s_container_store client quantities labels_lib cfg) (delete_call id) w).0
        × Distinct (view.deployments (delete client quantities labels_lib cfg id w).1 ns)
  unfolding perform new_k8s_container_store IsUnique
  delete-Allowed id w unique distinct =
      elim (Result-cases (delete client quantities labels_lib cfg id w).0) [
        | inl (t, h) ↦
            let (gone, (d, one, left)) =
              delete-done client quantities labels_lib cfg view laws id w h in
            rw h (
              (
                first_of-none _ (one≢none one),
                held-without client quantities labels_lib cfg view laws label_laws w _ id d distinct
                    one gone.0 left,
              ),
              subst Distinct (sym left) (Distinct-filter (λ e. not (e.name == d.name)) _ distinct),
            )
        | inr (f, h) ↦
            let same = delete-failed client quantities labels_lib cfg view laws id f w h in
            rw h (
              (
                Unchanged-same client quantities labels_lib cfg view laws label_laws w _ same,
                refusal (
                    rw h at
                      (delete-refused client quantities labels_lib cfg view laws id w (unique id))),
              ),
              subst Distinct (sym same) distinct,
            )
      ]
    where
      refusal :
          {f : StoreError E}
          → DeleteRefused client quantities labels_lib cfg view laws id w f
          → ((map_of w id ≡ none) × (f ≡ not_found_error id)) ⊎ IsClientError f
      refusal (inl (no_ds, e)) = inl (ap first_of no_ds, e)
      refusal (inr e) = inr e
