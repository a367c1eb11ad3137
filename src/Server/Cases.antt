-- ===== src/Server/Cases.antt =====
-- The cases of a request: the identifier chosen, and what the calls of the store answer.
use k8s_container_service_pr.Base.{
  String, Option, none, some, List, [], ◌∷◌, ◌≡◌, ◌⊎◌, inl, inr, refl, Result, ok, err,
  Result-cases, is_empty, false, true,
}
use k8s_container_service_pr.Base.Int.{ℤ}
use k8s_container_service_pr.Api.{ContainerList}
use k8s_container_service_pr.Dcm.{LabelLib}
use k8s_container_service_pr.Units.{QuantityLib}
use k8s_container_service_pr.Kube.{Client}
use k8s_container_service_pr.Kubernetes.Convert.{K8sConfig}
use k8s_container_service_pr.Kubernetes.Store
use k8s_container_service_pr.Kubernetes.Store.{StoreError}
use k8s_container_service_pr.Handlers.Handler.{or_generated}
use k8s_container_service_pr.Handlers.Handler.Laws.{list_code}
use k8s_container_service_pr.Apiserver.Router.{Served}
use k8s_container_service_pr.Contract.{Abstract, Allowed, Unchanged, list_call, answer_of, listed}
use k8s_container_service_pr.Server.Exchanges.{Sent, Chosen}

-- A result whose length is not seen to be 0 has an element.
pub is_empty-nil : {A : Type 0} (xs : List A) → is_empty xs ≡ true → xs ≡ []
is_empty-nil [] h = refl
is_empty-nil (x ∷ xs) h = absurd (false≢true h)
  where
    false≢true : false ≡ true → ⊥
    false≢true e = cc

pub chosen : (given : Option String) (new_id : String) → Chosen given (or_generated given new_id)
chosen none new_id = inl refl
chosen (some id) new_id = inr refl

pub list_code-cases :
    {W E : Type 0} (result : Result (StoreError E) ContainerList) (v : Served W)
    → Sent (list_code result) v
    → Sent 200 v ⊎ Sent 400 v ⊎ Sent 500 v
list_code-cases (ok l) v h = inl h
list_code-cases (err (Store.not_found_error id)) v h = inr (inr h)
list_code-cases (err (Store.conflict_error m)) v h = inr (inr h)
list_code-cases (err (Store.invalid_argument_error m)) v h = inr (inl h)
list_code-cases (err (Store.client_error e)) v h = inr (inr h)

module _ {W E Q : Type 0} (client : Client W E Q) (quantities : QuantityLib Q)
    (labels_lib : LabelLib) (cfg : K8sConfig) where
  pub listing-same :
      (s t : Abstract Q) (size : ℤ) (token : String) (result : Result (StoreError E) ContainerList)
      → Allowed client quantities labels_lib cfg s t
          (list_call size token)
          (answer_of listed result)
      → Unchanged s t
  listing-same s t size token (ok l) same = same
  listing-same s t size token (err f) same = same

  -- The check of the cluster's health asks for its version, and no more.
  pub check_health-state :
      (w : W)
      → (Store.check_health client quantities labels_lib cfg w).1 ≡ (client.server_version w).1
  unfolding Store.check_health
  check_health-state w = elim (Result-cases (client.server_version w).0) [
    | inl (version, h) ↦ rw h refl
    | inr (e, h) ↦ rw h refl
  ]
