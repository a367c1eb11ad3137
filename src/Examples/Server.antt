-- ===== src/Examples/Server.antt =====
-- Runs of the handlers, the readiness probe and the registration.
use k8s_container_service_pr.Base.{
  ℕ, String, none, some, ◌≡◌, refl, Bool, false, ok, err, ◌<>◌, arith, All, lookup,
}
use k8s_container_service_pr.Base.Texts.Suffix.{cut_suffix}
use k8s_container_service_pr.Base.Exec.{Exec}
use k8s_container_service_pr.Api.{Container, Error}
use k8s_container_service_pr.Units.{convert_memory}
use k8s_container_service_pr.Kubernetes.Store.{
  conflict_error, not_found_error, invalid_argument_error,
}
use k8s_container_service_pr.Handlers.Validation.{
  validate_container_id, validate_resources, validate_user_labels,
}
use k8s_container_service_pr.Handlers.Errors.{Response, problem, returned}
use k8s_container_service_pr.Handlers.Handler.{
  Repository, create_container, get_container, delete_container, list_containers,
  containers_base_path,
}
use k8s_container_service_pr.Handlers.Handler.Laws.{
  response_code, IsConsistent, create_container-rejects, create_container-answers, handlers-answer,
}
use k8s_container_service_pr.Apiserver.Lifecycle.{ProbeError, Wakeup, tick, ready, wait_for_ready}
use k8s_container_service_pr.Apiserver.Lifecycle.Laws.{wait_for_ready-ready}
use k8s_container_service_pr.Registration.{Provider, Answer, register_result, registered, run_from}
use k8s_container_service_pr.Registration.Backoff.{AtMost, run_from-bounded, run_from-registers}
use k8s_container_service_pr.Examples.Fixtures.{text_quantities, web_spec}

-- A store that refuses every call, and counts them.
abbrev refusing : Repository ℕ String
refusing = record {
  create = λ spec id w. (err (conflict_error "exists"), ℕ.suc w);
  get = λ id w. (err (not_found_error id), ℕ.suc w);
  list = λ size token w. (err (invalid_argument_error "invalid page_token"), ℕ.suc w);
  delete = λ id w. (err (not_found_error id), ℕ.suc w);
  check_health = λ w. (ok tt, w);
}

abbrev same_text : String → String
same_text s = s

create_container-answers_example :
    (r : Response Container) × (create_container text_quantities same_text refusing
        (some "c1")
        "u1"
        web_spec
        0
      ≡ (returned r, 1))
    × (response_code r ≡ 409)
    × IsConsistent containers_base_path r
unfolding validate_container_id validate_resources validate_user_labels convert_memory lookup
    cut_suffix
create_container-answers_example =
    create_container-answers text_quantities same_text refusing (some "c1") "u1" web_spec 0 refl

create_container-rejects_example :
    (p : Error) × (create_container text_quantities same_text refusing
        (some "health")
        "u1"
        web_spec
        0
      ≡ (returned (problem 400 p), 0))
    × (p.status ≡ some 400)
unfolding validate_container_id
create_container-rejects_example =
    create_container-rejects text_quantities same_text refusing (some "health") "u1" web_spec 0 refl

handlers-answer_example :
    (response_code (get_container text_quantities same_text refusing "c1" 0).0 ≡ 404)
    × (response_code (delete_container text_quantities same_text refusing "c1" 0).0 ≡ 404)
    × (response_code (list_containers text_quantities same_text refusing none (some "x") 0).0 ≡ 400)
    × IsConsistent
        (containers_base_path <> ("/" <> "c1"))
        (get_container text_quantities same_text refusing "c1" 0).0
    × IsConsistent
        (containers_base_path <> ("/" <> "c1"))
        (delete_container text_quantities same_text refusing "c1" 0).0
    × IsConsistent containers_base_path
        (list_containers text_quantities same_text refusing none (some "x") 0).0
handlers-answer_example = handlers-answer text_quantities same_text refusing "c1" none (some "x") 0

-- A server that answers once its state is 0, and a clock that counts it down.
abbrev starting : Exec ℕ ProbeError ℕ
starting ℕ.zero = (ok 200, 0)
starting (ℕ.suc n) = (ok 503, ℕ.suc n)

abbrev ticking : ℕ → Wakeup × ℕ
ticking ℕ.zero = (tick, 0)
ticking (ℕ.suc n) = (tick, n)

wait_for_ready-ready_example : (wait_for_ready starting ticking 3 1).0 ≡ ready
wait_for_ready-ready_example =
    wait_for_ready-ready starting ticking 1 3 1 (omega arith) (refl, refl, refl)

-- A control plane that is unavailable as often as its state says.
abbrev control_plane : Provider → Exec ℕ String Answer
control_plane p ℕ.zero = (ok (record { status_code = 201; body = "" }), 0)
control_plane p (ℕ.suc n) = (ok (record { status_code = 503; body = "" }), n)

abbrev uncut : ℕ → ℕ → Bool × ℕ
uncut ms w = (false, w)

abbrev provider : Provider
provider = record {
  name = "k8s";
  service_type = "container";
  endpoint = "http://provider/api/v1alpha1/containers";
  operations = none;
  schema_version = "v1alpha1";
  display_name = none;
  metadata = none;
}

run_from-registers_example :
    ((run_from control_plane uncut 3 60000 1000 provider 2).0.end ≡ registered)
    × ((run_from control_plane uncut 3 60000 1000 provider 2).0.attempts ≡ 3)
unfolding register_result
run_from-registers_example =
    run_from-registers control_plane uncut 2 3 60000 1000 provider 2 (omega arith)
      (refl, refl, (refl, refl, refl))

run_from-bounded_example :
    All (AtMost 60000) (run_from control_plane uncut 9 60000 1000 provider 8).0.waits
run_from-bounded_example =
    run_from-bounded control_plane uncut 9 60000 1000 provider 8 (omega arith)
