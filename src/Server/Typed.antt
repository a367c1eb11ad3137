-- ===== src/Server/Typed.antt =====
-- The responses of the handlers are of types that the generated server has.
use k8s_container_service_pr.Base.{
  ℕ, String, Bool, true, Option, List, ◌≡◌, refl, ◌∙◌, ap, Result, ok, err, any, eqb,
}
use k8s_container_service_pr.Base.Int.{ℤ}
use k8s_container_service_pr.Api.{Container, ContainerList}
use k8s_container_service_pr.Units.{QuantityLib}
use k8s_container_service_pr.Kubernetes.Store.{
  StoreError, not_found_error, conflict_error, invalid_argument_error, client_error,
}
use k8s_container_service_pr.Handlers.Handler.{
  Repository, get_container, delete_container, list_containers, or_zero, or_no_token,
}
use k8s_container_service_pr.Handlers.Handler.Laws.{
  response_code, create_code, lookup_code, list_code, handlers-answer,
}
use k8s_container_service_pr.Server.Responses.{
  list_containers_statuses, create_container_statuses, delete_container_statuses,
  get_container_statuses,
}

abbrev pub has_type : ℕ → List ℕ → Bool
has_type status statuses = any (eqb status) statuses

pub create_code-typed :
    {E : Type 0} (r : Result (StoreError E) Container)
    → has_type (create_code r) create_container_statuses ≡ true
unfolding create_container_statuses
create_code-typed (ok c) = refl
create_code-typed (err (not_found_error id)) = refl
create_code-typed (err (conflict_error m)) = refl
create_code-typed (err (invalid_argument_error m)) = refl
create_code-typed (err (client_error e)) = refl

get_code-typed :
    {E : Type 0} (r : Result (StoreError E) Container)
    → has_type (lookup_code 200 r) get_container_statuses ≡ true
unfolding get_container_statuses
get_code-typed (ok c) = refl
get_code-typed (err (not_found_error id)) = refl
get_code-typed (err (conflict_error m)) = refl
get_code-typed (err (invalid_argument_error m)) = refl
get_code-typed (err (client_error e)) = refl

delete_code-typed :
    {E : Type 0} (r : Result (StoreError E) (Unit {0}))
    → has_type (lookup_code 204 r) delete_container_statuses ≡ true
unfolding delete_container_statuses
delete_code-typed (ok c) = refl
delete_code-typed (err (not_found_error id)) = refl
delete_code-typed (err (conflict_error m)) = refl
delete_code-typed (err (invalid_argument_error m)) = refl
delete_code-typed (err (client_error e)) = refl

list_code-typed :
    {E : Type 0} (r : Result (StoreError E) ContainerList)
    → has_type (list_code r) list_containers_statuses ≡ true
unfolding list_containers_statuses
list_code-typed (ok c) = refl
list_code-typed (err (not_found_error id)) = refl
list_code-typed (err (conflict_error m)) = refl
list_code-typed (err (invalid_argument_error m)) = refl
list_code-typed (err (client_error e)) = refl

-- Get, Delete and List answer with statuses for which there is a response type.
pub handlers-typed :
    {W E Q : Type 0} (quantities : QuantityLib Q) (text : E → String) (store : Repository W E)
    (id : String) (size : Option ℤ) (token : Option String) (w : W)
    → (has_type (response_code (get_container quantities text store id w).0) get_container_statuses
        ≡ true)
      × (has_type
            (response_code (delete_container quantities text store id w).0)
            delete_container_statuses
          ≡ true)
      × (has_type
            (response_code (list_containers quantities text store size token w).0)
            list_containers_statuses
          ≡ true)
handlers-typed quantities text store id size token w =
    let h = handlers-answer quantities text store id size token w in
    (
      ap (λ n. has_type n get_container_statuses) h.0 ∙ get_code-typed (store.get id w).0,
      ap (λ n. has_type n delete_container_statuses) h.1 ∙ delete_code-typed (store.delete id w).0,
      ap (λ n. has_type n list_containers_statuses) h.2
          ∙ list_code-typed (store.list (or_zero size) (or_no_token token) w).0,
    )
