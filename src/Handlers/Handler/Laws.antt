-- ===== src/Handlers/Handler/Laws.antt =====
-- The answers of the API handlers on every path of the store under them.
use k8s_container_service_pr.Base.{
  ℕ, String, Bool, true, false, Option, none, some, List, [], ◌∷◌, ◌++◌, ◌≡◌, refl, Result, ok, err,
  if◌then◌else◌, is_empty, length, ltb, suc, ap, arith, ◌<>◌,
}
use k8s_container_service_pr.Base.Int.{ℤ}
use k8s_container_service_pr.Api.{ContainerSpec, Container, ContainerList, Error}
use k8s_container_service_pr.Units.{QuantityLib}
use k8s_container_service_pr.Kubernetes.Store.{
  StoreError, not_found_error, conflict_error, invalid_argument_error, client_error,
}
use k8s_container_service_pr.Handlers.Validation.{
  ValidationError, validate_container_id, validate_resources, validate_user_labels,
}
use k8s_container_service_pr.Handlers.Errors.{
  Response, success, problem, Outcome, returned, new_create_error400, new_create_multi_error400,
  map_create_error, map_get_error, map_delete_error, map_list_error,
}
use k8s_container_service_pr.Handlers.Handler.{
  Repository, create_container, create_with_errors, create_checked, get_container, delete_container,
  list_containers, or_generated, or_zero, or_no_token, respond, containers_base_path,
}

abbrev pub response_code : {A : Type 0} → Response A → ℕ
response_code (success code a) = code
response_code (problem code p) = code

-- A problem says the same status in its body as in its status line, and where the request went.
abbrev pub IsConsistent : {A : Type 0} → String → Response A → Type 0
IsConsistent path (success code a) = Unit
IsConsistent path (problem code p) = (p.status ≡ some code) × (p.instance_ ≡ some path)

-- The status codes that the API documents for each result of the store.
abbrev pub create_code : {E : Type 0} → Result (StoreError E) Container → ℕ
create_code (ok c) = 201
create_code (err (not_found_error id)) = 500
create_code (err (conflict_error m)) = 409
create_code (err (invalid_argument_error m)) = 400
create_code (err (client_error e)) = 500

abbrev pub lookup_code : {E A : Type 0} → ℕ → Result (StoreError E) A → ℕ
lookup_code code (ok a) = code
lookup_code code (err (not_found_error id)) = 404
lookup_code code (err _) = 500

abbrev pub list_code : {E : Type 0} → Result (StoreError E) ContainerList → ℕ
list_code (ok l) = 200
list_code (err (invalid_argument_error m)) = 400
list_code (err _) = 500

pick_false {ℓ} : {A : Type ℓ} (b : Bool) (x y : A) → b ≡ false → (if b then x else y) ≡ y
pick_false b x y e = rw e

two_or_more : (n : ℕ) → ltb (suc (suc n)) 2 ≡ false
two_or_more n = ground arith

true≢false : true ≡ false → ⊥
true≢false h = cc

cons≢nil : {A : Type 0} {x : A} {xs : List A} → x ∷ xs ≡ [] → ⊥
cons≢nil h = cc

module _ {W E Q : Type 0} (quantities : QuantityLib Q) (text : E → String)
    (store : Repository W E) where
  -- What the checks find wrong with a request.
  abbrev pub request_errors : String → ContainerSpec → List ValidationError
  request_errors id spec = elim (validate_container_id id) [
    | some e ↦ e ∷ []
    | none ↦
        validate_resources quantities spec.resources ++ validate_user_labels spec.metadata.labels
  ]

  with_errors-rejects :
      (e : ValidationError) (es : List ValidationError) (spec : ContainerSpec) (id : String) (w : W)
      → (p : Error) × (create_with_errors quantities text store (e ∷ es) spec id w
          ≡ (returned (problem 400 p), w))
        × (p.status ≡ some 400)
  unfolding create_with_errors new_create_error400 new_create_multi_error400
  with_errors-rejects e [] spec id w = (_, refl, refl)
  with_errors-rejects e (f ∷ es) spec id w = (
    _,
    ap (λ (o : Outcome (Response Container)). (o, w)) (pick_false _ _ _ (two_or_more (length es))),
    refl,
  )

  pub respond-create :
      (r : Result (StoreError E) Container)
      → (response_code (respond 201 (λ e. map_create_error text e containers_base_path) r)
          ≡ create_code r)
        × IsConsistent containers_base_path
            (respond 201 (λ e. map_create_error text e containers_base_path) r)
  unfolding map_create_error new_create_error400
  respond-create (ok c) = (refl, tt)
  respond-create (err (not_found_error id)) = (refl, (refl, refl))
  respond-create (err (conflict_error m)) = (refl, (refl, refl))
  respond-create (err (invalid_argument_error m)) = (refl, (refl, refl))
  respond-create (err (client_error e)) = (refl, (refl, refl))

  pub respond-get :
      (path : String) (r : Result (StoreError E) Container)
      → (response_code (respond 200 (λ e. map_get_error text e path) r) ≡ lookup_code 200 r)
        × IsConsistent path (respond 200 (λ e. map_get_error text e path) r)
  unfolding map_get_error
  respond-get path (ok c) = (refl, tt)
  respond-get path (err (not_found_error id)) = (refl, (refl, refl))
  respond-get path (err (conflict_error m)) = (refl, (refl, refl))
  respond-get path (err (invalid_argument_error m)) = (refl, (refl, refl))
  respond-get path (err (client_error e)) = (refl, (refl, refl))

  pub respond-delete :
      (path : String) (r : Result (StoreError E) (Unit {0}))
      → (response_code (respond 204 (λ e. map_delete_error text e path) r) ≡ lookup_code 204 r)
        × IsConsistent path (respond 204 (λ e. map_delete_error text e path) r)
  unfolding map_delete_error
  respond-delete path (ok c) = (refl, tt)
  respond-delete path (err (not_found_error id)) = (refl, (refl, refl))
  respond-delete path (err (conflict_error m)) = (refl, (refl, refl))
  respond-delete path (err (invalid_argument_error m)) = (refl, (refl, refl))
  respond-delete path (err (client_error e)) = (refl, (refl, refl))

  pub respond-list :
      (r : Result (StoreError E) ContainerList)
      → (response_code (respond 200 (λ e. map_list_error text e containers_base_path) r)
          ≡ list_code r)
        × IsConsistent containers_base_path
            (respond 200 (λ e. map_list_error text e containers_base_path) r)
  unfolding map_list_error
  respond-list (ok c) = (refl, tt)
  respond-list (err (not_found_error id)) = (refl, (refl, refl))
  respond-list (err (conflict_error m)) = (refl, (refl, refl))
  respond-list (err (invalid_argument_error m)) = (refl, (refl, refl))
  respond-list (err (client_error e)) = (refl, (refl, refl))

  -- A create request whose checks find something wrong is answered 400, with a problem that says so;
  -- the handler returns, and it leaves the cluster as it is.
  pub create_container-rejects :
      (params_id : Option String) (new_id : String) (spec : ContainerSpec) (w : W)
      → is_empty (request_errors (or_generated params_id new_id) spec) ≡ false
      → (p : Error) × (create_container quantities text store params_id new_id spec w
          ≡ (returned (problem 400 p), w))
        × (p.status ≡ some 400)
  unfolding create_container
  create_container-rejects params_id new_id spec w h =
      rejected (validate_container_id (or_generated params_id new_id)) refl
        (validate_resources quantities spec.resources ++ validate_user_labels spec.metadata.labels)
        refl
    where
      rejected :
          (o : Option ValidationError)
          → validate_container_id (or_generated params_id new_id) ≡ o
          → (es : List ValidationError)
          → validate_resources quantities spec.resources
              ++ validate_user_labels spec.metadata.labels
            ≡ es
          → (p : Error) × (create_container quantities text store params_id new_id spec w
              ≡ (returned (problem 400 p), w))
            × (p.status ≡ some 400)
      rejected (some e) f es g = rw f (_, refl, refl)
      rejected none f [] g = absurd (true≢false (rw (request_errors, f, g) at h))
      rejected none f (e ∷ es) g =
          rw (f, g) (with_errors-rejects e es spec (or_generated params_id new_id) w)

  -- A create request that passes the checks calls the store once, with the given identifier or the
  -- generated one; the handler returns 201, or 409 on a conflict, 400 on an invalid argument and 500
  -- on any other error, in a problem that agrees with its status line.
  pub create_container-answers :
      (params_id : Option String) (new_id : String) (spec : ContainerSpec) (w : W)
      → request_errors (or_generated params_id new_id) spec ≡ []
      → (r : Response Container) × (create_container quantities text store params_id new_id spec w
          ≡ (returned r, (store.create spec (or_generated params_id new_id) w).1))
        × (response_code r ≡ create_code (store.create spec (or_generated params_id new_id) w).0)
        × IsConsistent containers_base_path r
  unfolding create_container create_with_errors create_checked
  create_container-answers params_id new_id spec w h =
      answered (validate_container_id (or_generated params_id new_id)) refl
        (validate_resources quantities spec.resources ++ validate_user_labels spec.metadata.labels)
        refl
    where
      answered :
          (o : Option ValidationError)
          → validate_container_id (or_generated params_id new_id) ≡ o
          → (es : List ValidationError)
          → validate_resources quantities spec.resources
              ++ validate_user_labels spec.metadata.labels
            ≡ es
          → (r : Response Container) × (create_container quantities text store params_id new_id spec
                w
              ≡ (returned r, (store.create spec (or_generated params_id new_id) w).1))
            × (response_code r
                ≡ create_code (store.create spec (or_generated params_id new_id) w).0)
            × IsConsistent containers_base_path r
      answered (some e) f es g = absurd (cons≢nil (rw (request_errors, f) at h))
      answered none f (e ∷ es) g = absurd (cons≢nil (rw (request_errors, f, g) at h))
      answered none f [] g =
          let r = respond-create (store.create spec (or_generated params_id new_id) w).0 in
          rw (f, g) (_, refl, r.0, r.1)

  -- Reading and deleting a container call the store once and answer its result: 200 or 204, 404 where
  -- there is no such container, and 500 on any other error, in a problem that agrees with its status
  -- line; a page of the list is answered 200, a bad page token 400, and any other error 500.
  pub handlers-answer :
      (container_id : String) (max_page_size : Option ℤ) (page_token : Option String) (w : W)
      → (response_code (get_container quantities text store container_id w).0
          ≡ lookup_code 200 (store.get container_id w).0)
        × (response_code (delete_container quantities text store container_id w).0
            ≡ lookup_code 204 (store.delete container_id w).0)
        × (response_code (list_containers quantities text store max_page_size page_token w).0
            ≡ list_code (store.list (or_zero max_page_size) (or_no_token page_token) w).0)
        × IsConsistent
            (containers_base_path <> ("/" <> container_id))
            (get_container quantities text store container_id w).0
        × IsConsistent
            (containers_base_path <> ("/" <> container_id))
            (delete_container quantities text store container_id w).0
        × IsConsistent containers_base_path
            (list_containers quantities text store max_page_size page_token w).0
  unfolding get_container delete_container list_containers
  handlers-answer container_id max_page_size page_token w =
      let g =
        respond-get (containers_base_path <> ("/" <> container_id)) (store.get container_id w).0 in
      let d =
        respond-delete (containers_base_path <> ("/" <> container_id))
          (store.delete container_id w).0 in
      let l = respond-list (store.list (or_zero max_page_size) (or_no_token page_token) w).0 in
      (g.0, d.0, l.0, g.1, d.1, l.1)
