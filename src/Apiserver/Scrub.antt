-- ===== src/Apiserver/Scrub.antt =====
-- scrubValidationError of internal/apiserver/server.go: what a client is told of a refused request.
use k8s_container_service_pr.Base.{
  String, Bool, Option, none, some, if◌then◌else◌, ◌<>◌, quote, is_nil,
}

-- openapi3filter.RequestError, as far as it is read. `schema_reason` is the Reason of the SchemaError
-- that errors.As finds below its Err.
pub record RequestError : Type 0 where
  pub parameter : Option (String × String)  -- Name and In
  pub has_request_body : Bool
  pub schema_reason : Option String
  pub reason : String

-- The errors of the generated parameter binding (internal/api/server/server.gen.go), each with its
-- ParamName.
pub data BindingKind : Type 0 where
  invalid_param_format required_param required_header unescaped_cookie_param unmarshaling_param
        too_many_values_for_param :
      BindingKind

-- An error by the first of the types that errors.As finds in it, in the order of the tests.
pub data RequestFailure : Type 0 where
  request_error : RequestError → RequestFailure
  binding_error : BindingKind → String → RequestFailure
  other_error : String → RequestFailure

abbrev pub generic_msg : String
generic_msg = "invalid request"

unfoldable pub location_prefix : RequestError → String
location_prefix e = elim e.parameter [
  | some (name, in_) ↦ "parameter " <> (quote name <> (" in " <> in_))
  | none ↦ if e.has_request_body then "request body" else ""
]

abbrev with_prefix : String → String → String
with_prefix prefix reason = if is_nil prefix then reason else prefix <> (": " <> reason)

abbrev reason_or_generic : String → String → String
reason_or_generic prefix reason = if is_nil reason then generic_msg else with_prefix prefix reason

abbrev scrub_request_error : Option String → RequestError → String
scrub_request_error none e = reason_or_generic (location_prefix e) e.reason
scrub_request_error (some r) e =
    if is_nil r
    then reason_or_generic (location_prefix e) e.reason
    else with_prefix (location_prefix e) r

abbrev scrub_binding : BindingKind → String → String
scrub_binding invalid_param_format name = "invalid format for parameter " <> quote name
scrub_binding required_param name = "missing required parameter " <> quote name
scrub_binding required_header name = "missing required header " <> quote name
scrub_binding unescaped_cookie_param name = "invalid cookie parameter " <> quote name
scrub_binding unmarshaling_param name = "invalid value for parameter " <> quote name
scrub_binding too_many_values_for_param name = "too many values for parameter " <> quote name

unfoldable pub scrub_validation_error : RequestFailure → String
unfolding location_prefix
scrub_validation_error (request_error e) = scrub_request_error e.schema_reason e
scrub_validation_error (binding_error kind name) = scrub_binding kind name
scrub_validation_error (other_error text) = generic_msg
