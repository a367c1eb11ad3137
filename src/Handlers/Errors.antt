-- ===== src/Handlers/Errors.antt =====
-- internal/handlers/container/errors.go and internal/httperror: store errors as RFC 9457 problems.
use k8s_container_service_pr.Base.{
  ℕ, String, Option, none, some, List, map, if◌then◌else◌, is_nil, ltb, length,
}
use k8s_container_service_pr.Api.{Error, ErrorDetail}
use k8s_container_service_pr.Api.Enums.{
  ErrorType, already_exists, internal, invalid_argument, not_found,
}
use k8s_container_service_pr.Kubernetes.Store.{
  StoreError, not_found_error, conflict_error, invalid_argument_error, client_error, error_text,
}
use k8s_container_service_pr.Handlers.Validation.{ValidationError}

abbrev pub internal_title : String
internal_title = "Internal Server Error"

abbrev pub internal_detail : String
internal_detail = "an unexpected error occurred"

abbrev pub invalid_argument_title : String
invalid_argument_title = "Invalid argument"

abbrev pub invalid_argument_multi_detail : String
invalid_argument_multi_detail = "multiple validation errors, see the errors array for details"

abbrev pub not_found_title : String
not_found_title = "Not found"

abbrev pub already_exists_title : String
already_exists_title = "Already exists"

-- A typed response of the generated server: the status code of its type, with the resource or with a
-- problem.
pub data Response (A : Type 0) : Type 0 where
  success : ℕ → A → Response A
  problem : ℕ → Error → Response A

-- A call that returns, or panics.
pub data Outcome (A : Type 0) : Type 0 where
  returned : A → Outcome A
  panicked : String → Outcome A

-- ptrOrNil
unfoldable pub ptr_or_nil : String → Option String
ptr_or_nil s = if is_nil s then none else some s

-- A problem without a pointer and without details.
abbrev pub plain_error : ErrorType → String → ℕ → String → String → Error
plain_error type_ title status detail request_path = record {
  detail = some detail;
  errors = none;
  instance_ = some request_path;
  pointer = none;
  status = some status;
  title = title;
  type_ = type_;
}

-- newCreateError400
unfoldable pub new_create_error400 : {A : Type 0} → String → String → String → Response A
unfolding ptr_or_nil
new_create_error400 detail pointer request_path =
    problem 400
      (record (plain_error invalid_argument invalid_argument_title 400 detail request_path) {
        pointer = ptr_or_nil pointer;
      })

abbrev error_detail : ValidationError → ErrorDetail
error_detail e = record { detail = e.detail; pointer = ptr_or_nil e.pointer }

-- newCreateMultiError400, which panics on fewer than two errors.
unfoldable pub new_create_multi_error400 :
    {A : Type 0} → List ValidationError → String → Outcome (Response A)
unfolding ptr_or_nil
new_create_multi_error400 errs request_path =
    if ltb (length errs) 2
    then panicked "newCreateMultiError400 requires at least 2 errors"
    else returned (
        problem 400
          (record (plain_error invalid_argument invalid_argument_title 400
            invalid_argument_multi_detail request_path) { errors = some (map error_detail errs) }))

abbrev internal_error : {A : Type 0} → String → Response A
internal_error request_path =
    problem 500 (plain_error internal internal_title 500 internal_detail request_path)

module _ {E : Type 0} (text : E → String) where
  unfoldable pub map_create_error : {A : Type 0} → StoreError E → String → Response A
  unfolding new_create_error400 error_text
  map_create_error (conflict_error message) path = problem 409 (
      plain_error already_exists already_exists_title 409 (error_text text (conflict_error message))
        path)
  map_create_error (invalid_argument_error message) path =
      new_create_error400 (error_text text (invalid_argument_error message)) "" path
  map_create_error (not_found_error id) path = internal_error path
  map_create_error (client_error e) path = internal_error path

  unfoldable pub map_get_error : {A : Type 0} → StoreError E → String → Response A
  unfolding error_text
  map_get_error (not_found_error id) path =
      problem 404
        (plain_error not_found not_found_title 404 (error_text text (not_found_error id)) path)
  map_get_error (conflict_error message) path = internal_error path
  map_get_error (invalid_argument_error message) path = internal_error path
  map_get_error (client_error e) path = internal_error path

  unfoldable pub map_delete_error : {A : Type 0} → StoreError E → String → Response A
  unfolding error_text
  map_delete_error (not_found_error id) path =
      problem 404
        (plain_error not_found not_found_title 404 (error_text text (not_found_error id)) path)
  map_delete_error (conflict_error message) path = internal_error path
  map_delete_error (invalid_argument_error message) path = internal_error path
  map_delete_error (client_error e) path = internal_error path

  unfoldable pub map_list_error : {A : Type 0} → StoreError E → String → Response A
  unfolding error_text
  map_list_error (invalid_argument_error message) path = problem 400 (
      plain_error invalid_argument invalid_argument_title 400
        (error_text text (invalid_argument_error message)) path)
  map_list_error (not_found_error id) path = internal_error path
  map_list_error (conflict_error message) path = internal_error path
  map_list_error (client_error e) path = internal_error path
