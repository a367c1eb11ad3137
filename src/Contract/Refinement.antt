-- ===== src/Contract/Refinement.antt =====
-- K8sContainerStore of internal/kubernetes implements the contract of the repository.
use k8s_container_service_pr.Base.{
  String, List, [], ◌∷◌, refl, sym, inl, inr, filter, Result-cases, length, ◌≤◌,
}
use mathlib.Core.Path.{subst}
use k8s_container_service_pr.Base.Int.{pos}
use k8s_container_service_pr.Dcm.{LabelLib, LabelLaws, instance_labels, matches}
use k8s_container_service_pr.Units.{QuantityLib}
use k8s_container_service_pr.Kube.{Deployment, Client}
use k8s_container_service_pr.Kube.Laws.{View, SameDeployments, ClientLaws}
use k8s_container_service_pr.Kubernetes.Convert.{K8sConfig}
use k8s_container_service_pr.Kubernetes.Paging.{list}
use k8s_container_service_pr.Kubernetes.Paging.Reads.{reads-SameObjects}
use k8s_container_service_pr.Kubernetes.Store.Unique.{IsUnique, create-IsUnique, delete-IsUnique}
use k8s_container_service_pr.Kubernetes.Store.Rollback.{RollsBack}
use k8s_container_service_pr.Contract.{
  Call, create_call, get_call, delete_call, list_call, perform, new_k8s_container_store, Abstract,
  Allowed, Accepts, run_calls,
}
use k8s_container_service_pr.Contract.Steps.{
  create-Allowed, create-Distinct, get-Allowed, delete-Allowed,
}
use k8s_container_service_pr.Contract.Held.{Unchanged-same, held, IsSound}
use k8s_container_service_pr.Kube.Distinct.{Distinct}

module _ {W E Q : Type 0} (client : Client W E Q) (quantities : QuantityLib Q)
    (labels_lib : LabelLib) (cfg : K8sConfig) (view : View W Q)
    (laws : ClientLaws client labels_lib view) (label_laws : LabelLaws labels_lib) where
  abbrev ns : String
  ns = cfg.namespace

  abbrev pub map_of : W → Abstract Q
  map_of w = held client quantities labels_lib cfg view laws label_laws w

  abbrev pub Sound : W → Type 0
  Sound w = IsSound client quantities labels_lib cfg view laws label_laws w

  -- One call: its answer is one that the contract allows, and the cluster stays sound.
  abbrev pub Step : Call → W → Type 0
  Step c w =
      let (a, v) = perform (new_k8s_container_store client quantities labels_lib cfg) c w in
      Allowed client quantities labels_lib cfg (map_of w) (map_of v) c a × Sound v

  pub IsSound-same : (w v : W) → SameDeployments view ns w v → Sound w → Sound v
  unfolding IsUnique
  IsSound-same w v same (unique, distinct) = (
    λ i.
        subst
          (λ ds.
            length (filter (λ (d : Deployment Q). matches (instance_labels i) d.labels) ds) ≤ 1)
          (sym same) (unique i),
    subst Distinct (sym same) distinct,
  )

  -- Where a call is a Create, its rollback is answered.
  abbrev pub CallRollsBack : Call → W → Type 0
  CallRollsBack (create_call spec id) w = RollsBack client quantities labels_lib cfg spec id w
  CallRollsBack (get_call id) w = Unit
  CallRollsBack (delete_call id) w = Unit
  CallRollsBack (list_call size token) w = Unit

  -- The rollbacks of a run are answered.
  abbrev pub RunRollsBack : List Call → W → Type 0
  RunRollsBack [] w = Unit
  RunRollsBack (c ∷ cs) w =
      CallRollsBack c w
      × RunRollsBack cs (perform (new_k8s_container_store client quantities labels_lib cfg) c w).1

  pub perform-Step : (c : Call) (w : W) → CallRollsBack c w → Sound w → Step c w
  unfolding perform new_k8s_container_store
  perform-Step (create_call spec id) w deletes (unique, distinct) = (
    create-Allowed client quantities labels_lib cfg view laws label_laws spec id w deletes,
    (
      create-IsUnique client quantities labels_lib cfg view laws label_laws spec id w deletes
          unique,
      create-Distinct client quantities labels_lib cfg view laws label_laws spec id w deletes
          distinct,
    ),
  )
  perform-Step (get_call id) w deletes (unique, distinct) = (
    get-Allowed client quantities labels_lib cfg view laws label_laws id w unique,
    IsSound-same w _
        (reads-SameObjects client quantities labels_lib cfg view laws id (pos 0) "" w).0.0
        (unique, distinct),
  )
  perform-Step (delete_call id) w deletes (unique, distinct) =
      let (allowed, distinct') =
        delete-Allowed client quantities labels_lib cfg view laws label_laws id w unique distinct in
      (
        allowed,
        (
          delete-IsUnique client quantities labels_lib cfg view laws label_laws id w unique,
          distinct',
        ),
      )
  perform-Step (list_call size token) w deletes sound =
      let same =
        (reads-SameObjects client quantities labels_lib cfg view laws "" size token w).1.0 in
      elim (Result-cases (list client quantities labels_lib cfg size token w).0) [
        | inl (l, h) ↦ rw h (
          Unchanged-same client quantities labels_lib cfg view laws label_laws w _ same,
          IsSound-same w _ same sound,
        )
        | inr (f, h) ↦ rw h (
          Unchanged-same client quantities labels_lib cfg view laws label_laws w _ same,
          IsSound-same w _ same sound,
        )
      ]

  -- Every run of the store, from a cluster where the deployments have distinct names and no two are of
  -- one instance, is a run of the abstract repository on the map that the cluster stands for, where
  -- each Create that has to take back the deployment that it has created is answered when it deletes it.
  -- The cluster it ends with is sound again.
  pub run_calls-Accepts :
      (calls : List Call) (w : W)
      → RunRollsBack calls w
      → Sound w
      → let (answers, v) =
          run_calls (new_k8s_container_store client quantities labels_lib cfg) calls w in
        Accepts client quantities labels_lib cfg (map_of w) answers (map_of v) × Sound v
  unfolding run_calls
  run_calls-Accepts [] w deletes sound = ((λ i. refl), sound)
  run_calls-Accepts (c ∷ cs) w (deletes, more_deletes) sound =
      let v = (perform (new_k8s_container_store client quantities labels_lib cfg) c w).1 in
      let (allowed, next) = perform-Step c w deletes sound in
      let (more, end) = run_calls-Accepts cs v more_deletes next in ((map_of v, allowed, more), end)
