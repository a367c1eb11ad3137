-- ===== src/Registration.antt =====
-- internal/registration/registration.go: the provider's registration with the DCM control plane.
pub mod Backoff
pub mod Lifetime
use k8s_container_service_pr.Base.{
  quote, ℕ, zero, suc, ◌+◌, ◌*◌, String, Bool, true, false, not, ◌&&◌, ◌||◌, Option, none, some,
  List, [], ◌∷◌, if◌then◌else◌, ◌==◌, ◌<>◌, ltb, leb, eqb, is_nil, Result, ok, err, itoa, take,
}
use k8s_container_service_pr.Base.Exec.{Exec}
use k8s_container_service_pr.Config.{Config}

abbrev service_type : String
service_type = "container"

abbrev schema_version : String
schema_version = "v1alpha1"

abbrev ops : List String
ops = "CREATE" ∷ "DELETE" ∷ "READ" ∷ []

pub record ProviderMetadata : Type 0 where
  pub region_code : Option String
  pub zone : Option String

pub record Provider : Type 0 where
  pub name : String
  pub service_type : String
  pub endpoint : String
  pub operations : Option (List String)
  pub schema_version : String
  pub display_name : Option String
  pub metadata : Option ProviderMetadata

abbrev set_text : String → Option String
set_text s = if is_nil s then none else some s

-- BuildPayload; the suffix is that of PostPath (api/v1alpha1/paths.go).
unfoldable pub build_payload : String → Config → Provider
build_payload endpoint_suffix cfg = record {
  name = cfg.provider.name;
  service_type = service_type;
  endpoint = cfg.provider.endpoint <> endpoint_suffix;
  operations = some ops;
  schema_version = schema_version;
  display_name = set_text cfg.provider.display_name;
  metadata =
      if not (is_nil cfg.provider.region) || not (is_nil cfg.provider.zone)
      then some
          (record { region_code = set_text cfg.provider.region; zone = set_text cfg.provider.zone })
      else none;
}

-- An answer of the control plane: its status code and its body.
pub record Answer : Type 0 where
  pub status_code : ℕ
  pub body : String

pub data Failure : Type 0 where
  retryable non_retryable : Failure

-- register, on what the HTTP client answers; the texts of the errors are only logged.
unfoldable pub register_result : {E : Type 0} → Result E Answer → Result Failure (Unit {0})
register_result (err e) = err retryable
register_result (ok resp) =
    let sc = resp.status_code in
    if leb 400 sc && ltb sc 500
    then err non_retryable
    else if not (eqb sc 200) && not (eqb sc 201)
    then err retryable
    else ok tt

-- How the registration goroutine ends; `exhausted` is the end of the model's fuel.
pub data End : Type 0 where
  registered gave_up cancelled exhausted : End

pub record Progress : Type 0 where
  pub end : End
  pub attempts : ℕ
  pub waits : List ℕ

abbrev pub after_wait : ℕ → Progress → Progress
after_wait backoff p = record p { attempts = suc p.attempts; waits = backoff ∷ p.waits }

abbrev at_once : End → Progress
at_once e = record { end = e; attempts = 1; waits = [] }

-- backoff *= 2, cut at the maximum
unfoldable pub next_backoff : ℕ → ℕ → ℕ
next_backoff max_backoff backoff =
    if ltb max_backoff (backoff * 2) then max_backoff else backoff * 2

-- The HTTP client, and a wait, which answers whether the context was done before the timer.
module _ {W E : Type 0} (create_provider : Provider → Exec W E Answer)
    (wait : ℕ → W → Bool × W) where
  -- The loop of run.
  unfoldable pub run_from : ℕ → ℕ → ℕ → Provider → W → Progress × W
  unfolding register_result next_backoff
  run_from zero max_backoff backoff payload w =
      (record { end = exhausted; attempts = 0; waits = [] }, w)
  run_from (suc fuel) max_backoff backoff payload w =
      let w' = (create_provider payload w).1 in
      let rest =
        run_from fuel max_backoff (next_backoff max_backoff backoff) payload (wait backoff w').1 in
      elim (register_result (create_provider payload w).0) [
        | ok _ ↦ (at_once registered, w')
        | err non_retryable ↦ (at_once gave_up, w')
        | err retryable ↦
            if (wait backoff w').0
            then (
              record { end = cancelled; attempts = 1; waits = backoff ∷ [] },
              (wait backoff w').1,
            )
            else (after_wait backoff rest.0, rest.1)
      ]

  -- run, with the backoffs of the registrar
  unfoldable pub run : ℕ → ℕ → ℕ → String → Config → W → Progress × W
  unfolding run_from build_payload
  run fuel initial_backoff max_backoff endpoint_suffix cfg w =
      run_from fuel max_backoff initial_backoff (build_payload endpoint_suffix cfg) w

-- Registrar, what of it the options set, in milliseconds.
pub record Backoffs : Type 0 where
  pub initial : ℕ
  pub maximum : ℕ

pub data RegistrarOption : Type 0 where
  set_initial_backoff set_max_backoff : ℕ → RegistrarOption

abbrev apply_option : RegistrarOption → Backoffs → Backoffs
apply_option (set_initial_backoff d) b = record b { initial = d }
apply_option (set_max_backoff d) b = record b { maximum = d }

abbrev apply_options : List RegistrarOption → Backoffs → Backoffs
apply_options [] b = b
apply_options (o ∷ os) b = apply_options os (apply_option o b)

-- url.Parse, as far as the check reads it.
pub record Url : Type 0 where
  pub scheme : String
  pub host : String

abbrev invalid_url : String → Result String Backoffs
invalid_url registration_url =
    err ("creating DCM client: invalid registration URL " <> quote registration_url)

abbrev with_client : Option String → Backoffs → Result String Backoffs
with_client none backoffs = ok backoffs
with_client (some e) backoffs = err ("creating DCM client: " <> e)

-- NewRegistrar, on what url.Parse makes of the URL and on the error of NewClientWithResponses.
unfoldable pub new_registrar :
    String → Option Url → Option String → List RegistrarOption → Result String Backoffs
new_registrar registration_url none client_error options = invalid_url registration_url
new_registrar registration_url (some u) client_error options =
    if is_nil u.scheme || is_nil u.host
    then invalid_url registration_url
    else with_client client_error
        (apply_options options (record { initial = 1000; maximum = 60000 }))
