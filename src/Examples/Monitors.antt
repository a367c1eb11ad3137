-- ===== src/Examples/Monitors.antt =====
-- Runs of the debouncer and of the parts of the monitor.
use k8s_container_service_pr.Base.{
  List, lookup, ℕ, String, none, some, [], ◌∷◌, ◌++◌, ◌≡◌, refl, Bool, true, false, ok, err, length,
  ◌≤◌, lookup, All, take,
}
use mathlib.Core.List.{Memᴰ}
use k8s_container_service_pr.Base.Exec.{Exec}
use k8s_container_service_pr.Api.Enums.{running}
use k8s_container_service_pr.Dcm
use k8s_container_service_pr.Kube.{Pod}
use k8s_container_service_pr.Monitoring.Debouncer.Conserved.{
  submissions, count, run-at_most_submitted,
}
use k8s_container_service_pr.Monitoring.Monitor.{
  pod_object, observed, handle_deploy_event, handle_deploy_delete, handle_pod_event,
  handle_pod_delete, extract_instance_id_from_delete,
}
use k8s_container_service_pr.Monitoring.Monitor.Laws.{Submits, handlers-Submits}
use k8s_container_service_pr.Monitoring.Reconcile.{extract_instance_id}
use k8s_container_service_pr.Monitoring.Debouncer.{
  StatusEvent, Debouncer, new_debouncer, run, Step, submit_step, fire_step, callback_step,
  publish_step, stop_step, stop, step, submit, fire, callback, publish,
}
use k8s_container_service_pr.Monitoring.Debouncer.Coalesce.{burst, elapse, run-burst}
use k8s_container_service_pr.Monitoring.Debouncer.Shutdown.{IsShut, run-IsShut}
use k8s_container_service_pr.Monitoring.Reconcile.{lookup_pod_by_index, reconcile_status}
use k8s_container_service_pr.Monitoring.Reconcile.Laws.{
  NotAbove, lookup_pod_by_index-worst, reconcile_status-valid, IsReported,
}
use k8s_container_service_pr.Monitoring.Publish.{publish_with_retry, max_attempts, gave_up}
use k8s_container_service_pr.Monitoring.Publish.Laws.{publish_with_retry-bounded}

abbrev event : String → StatusEvent
event message = record { instance_id = "c1"; status = running; message = message }

run-burst_example :
    run (burst "c1" (event "a" ∷ event "b" ∷ event "c" ∷ []) ++ elapse 2) new_debouncer ≡ record {
      timers = [];
      stopped = false;
      pool = [];
      next_handle = 3;
      published = event "c" ∷ [];
    }
run-burst_example = run-burst "c1" (event "a") (event "b" ∷ event "c" ∷ [])

-- Stopped with a timer that had fired.
shut : Debouncer
shut = run (submit_step "c1" (event "a") ∷ fire_step 0 ∷ stop_step ∷ []) new_debouncer

shut-IsShut : IsShut shut
unfolding shut run step submit stop new_debouncer lookup
shut-IsShut = (refl, (refl, tt))

run-IsShut_example :
    IsShut
      (run (submit_step "c1" (event "b") ∷ Step.callback_step 0 ∷ Step.publish_step 0 ∷ []) shut)
    × ((run
          (submit_step "c1" (event "b") ∷ Step.callback_step 0 ∷ Step.publish_step 0 ∷ [])
          shut).published
        ≡ shut.published)
run-IsShut_example =
    run-IsShut (submit_step "c1" (event "b") ∷ Step.callback_step 0 ∷ Step.publish_step 0 ∷ []) shut
      shut-IsShut

abbrev pod_in : String → Pod
pod_in phase = record {
  name = "p";
  labels = [];
  creation_timestamp = 1;
  phase = phase;
  pod_ip = "";
  condition_times = [];
  container_statuses = [];
}

lookup_pod_by_index-worst_example :
    (worst : Pod) × (lookup_pod_by_index
        (some (pod_in "Running" ∷ pod_in "Failed" ∷ pod_in "Unknown" ∷ []))
      ≡ some worst)
    × Memᴰ worst (pod_in "Running" ∷ pod_in "Failed" ∷ pod_in "Unknown" ∷ [])
    × All (NotAbove worst.phase) (pod_in "Running" ∷ pod_in "Failed" ∷ pod_in "Unknown" ∷ [])
lookup_pod_by_index-worst_example =
    lookup_pod_by_index-worst (pod_in "Running") (pod_in "Failed" ∷ pod_in "Unknown" ∷ [])

reconcile_status-valid_example :
    IsReported (reconcile_status {Q = String} none (some (pod_in "Failed")))
reconcile_status-valid_example = reconcile_status-valid {Q = String} none (some (pod_in "Failed"))

-- A publisher that fails as often as its state says, and waits that are never cut short.
abbrev flaky : StatusEvent → Exec ℕ String (Unit {0})
flaky e ℕ.zero = (ok tt, 0)
flaky e (ℕ.suc n) = (err "no responders", n)

abbrev patient : ℕ → ℕ → Bool × ℕ
patient ms w = (false, w)

publish_with_retry-bounded_example :
    ((publish_with_retry flaky patient (event "a") 2).0.waits
      ≡ take
          (length (publish_with_retry flaky patient (event "a") 2).0.waits)
          (10 ∷ 20 ∷ 40 ∷ 80 ∷ []))
    × ((publish_with_retry flaky patient (event "a") 2).0.attempts ≤ max_attempts)
    × ((publish_with_retry flaky patient (event "a") 2).0.end ≡ gave_up
        → (publish_with_retry flaky patient (event "a") 2).0.attempts ≡ max_attempts)
publish_with_retry-bounded_example = publish_with_retry-bounded flaky patient (event "a") 2

-- The callback of the first event takes the lock after the second event is submitted, and the third
-- event is submitted before the interval of the second has passed.
abbrev late_callback : String → StatusEvent → StatusEvent → StatusEvent → List Step
late_callback id a b c =
    submit_step id a
    ∷ fire_step 0
    ∷ submit_step id b
    ∷ callback_step 0
    ∷ publish_step 0
    ∷ submit_step id c
    ∷ fire_step 1
    ∷ callback_step 1
    ∷ publish_step 1
    ∷ fire_step 2
    ∷ callback_step 2
    ∷ publish_step 2
    ∷ []

-- The callback of the first event removes the timer of the second from the map, so that the third does
-- not stop it, and all three are published.
late_callback_published :
    (run (late_callback "c1" (event "a") (event "b") (event "c")) new_debouncer).published
    ≡ event "a" ∷ event "b" ∷ event "c" ∷ []
unfolding run step submit fire callback publish new_debouncer lookup
late_callback_published = refl

run-at_most_submitted_example :
    count
      (λ e. true)
      (run (late_callback "c1" (event "a") (event "b") (event "c")) new_debouncer).published
    ≤ count (λ e. true) (submissions (late_callback "c1" (event "a") (event "b") (event "c")))
run-at_most_submitted_example =
    run-at_most_submitted (λ e. true) (late_callback "c1" (event "a") (event "b") (event "c"))

abbrev web_pod : Pod
web_pod = record (pod_in "Failed") { labels = Dcm.labels "c1" }

handlers-Submits_example :
    Submits "c1" new_debouncer (
      handle_deploy_event {Q = String}
        (λ id. some [])
        (λ id. some [])
        (pod_object web_pod)
        new_debouncer)
    × Submits "c1" new_debouncer (
        handle_deploy_delete {Q = String}
          (λ id. some [])
          (λ id. some [])
          (observed (pod_object web_pod))
          new_debouncer)
    × Submits "c1" new_debouncer (
        handle_pod_event {Q = String}
          (λ id. some [])
          (λ id. some [])
          (pod_object web_pod)
          new_debouncer)
    × Submits "c1" new_debouncer (
        handle_pod_delete {Q = String}
          (λ id. some [])
          (λ id. some [])
          (observed (pod_object web_pod))
          new_debouncer)
unfolding Dcm.labels extract_instance_id extract_instance_id_from_delete lookup
handlers-Submits_example =
    handlers-Submits {Q = String} (λ id. some []) (λ id. some []) (pod_object web_pod)
      (observed (pod_object web_pod)) new_debouncer

-- Quantities that are whole numbers, or texts.
