-- ===== src/Apiserver/Lifecycle.antt =====
-- waitForReady and Run of internal/apiserver/server.go.
pub mod Laws
use k8s_container_service_pr.Base.{
  ℕ, zero, suc, String, Bool, true, false, Option, none, some, List, [], ◌∷◌, if◌then◌else◌, ◌<>◌,
  eqb, Result, ok, err,
}
use k8s_container_service_pr.Base.Exec.{Exec}

-- What the select at the end of a probe round finds first.
pub data Wakeup : Type 0 where
  context_done deadline tick : Wakeup

-- What keeps a probe from an answer: the error of NewRequestWithContext, or that of the client.
pub data ProbeError : Type 0 where
  no_request no_answer : ProbeError

-- How waitForReady ends; `still_waiting` is the end of the model's fuel.
pub data Readiness : Type 0 where
  ready cancelled timed_out request_failed still_waiting : Readiness

module _ {W : Type 0} (probe : Exec W ProbeError ℕ) (select : W → Wakeup × W) where
  -- The loop of waitForReady: a probe of the health endpoint, which answers a status code, and a wait.
  unfoldable pub wait_for_ready : ℕ → W → Readiness × W
  wait_for_ready zero w = (still_waiting, w)
  wait_for_ready (suc fuel) w =
      let w' = (probe w).1 in
      let rest = wait_for_ready fuel (select w').1 in
      let wait : Readiness × W = elim (select w').0 [
        | context_done ↦ (cancelled, (select w').1)
        | deadline ↦ (timed_out, (select w').1)
        | tick ↦ rest
      ] in
      elim (probe w).0 [
        | ok code ↦ if eqb code 200 then (ready, w') else wait
        | err no_request ↦ (request_failed, w')
        | err no_answer ↦ wait
      ]

-- What ends the select of Run: the context, a failed Serve, or a Serve that has ended without an error.
pub data ServeEnd : Type 0 where
  context_cancelled serve_closed : ServeEnd
  serve_failed : String → ServeEnd

-- A run of the server: whether onReady was called, whether Shutdown was, and the result.
pub record ServerRun : Type 0 where
  pub on_ready_called : Bool
  pub shutdown_called : Bool
  pub result : Result String (Unit {0})

abbrev is_ready : Readiness → Bool
is_ready ready = true
is_ready _ = false

abbrev shutdown_result : Option String → Result String (Unit {0})
shutdown_result none = ok tt
shutdown_result (some e) = err ("shutting down server: " <> e)

abbrev finish : Bool → String → ServeEnd → Option String → ServerRun
finish called addr (serve_failed e) shutdown = record {
  on_ready_called = called;
  shutdown_called = false;
  result = err ("serving on " <> (addr <> (": " <> e)));
}
finish called addr context_cancelled shutdown = record {
  on_ready_called = called;
  shutdown_called = true;
  result = shutdown_result shutdown;
}
finish called addr serve_closed shutdown = record {
  on_ready_called = called;
  shutdown_called = true;
  result = shutdown_result shutdown;
}

-- Run, with the answers of its parts: the readiness probe, which only runs where a callback is
-- registered, what ends the select, and the error of Shutdown. A panic of the callback is recovered.
unfoldable pub run_server : Bool → Readiness → String → ServeEnd → Option String → ServerRun
run_server has_on_ready readiness addr serve_end shutdown =
    finish (if has_on_ready then is_ready readiness else false) addr serve_end shutdown
