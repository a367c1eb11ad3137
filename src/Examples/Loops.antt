-- ===== src/Examples/Loops.antt =====
-- Loops that are ended by a deadline and by the end of a context.
use k8s_container_service_pr.Base.{
  ℕ, Bool, true, false, String, none, ok, ◌≡◌, ◌≢◌, ◌≤◌, refl, arith,
}
use k8s_container_service_pr.Base.Exec.{Exec}
use k8s_container_service_pr.Apiserver.Lifecycle.{
  ProbeError, Wakeup, deadline, tick, still_waiting, wait_for_ready,
}
use k8s_container_service_pr.Apiserver.Lifecycle.Laws.{wait_for_ready-ends}
use k8s_container_service_pr.Registration.{Provider, Answer, exhausted, run_from}
use k8s_container_service_pr.Registration.Lifetime.{
  Registrar, fresh, start, finish, here, after, start_called, run_ended, IsOnce, Reaches-IsOnce,
}
use k8s_container_service_pr.Registration.Backoff.{run_from-ends}

abbrev never_ready : Exec ℕ ProbeError ℕ
never_ready n = (ok 503, n)

abbrev expiring : ℕ → Wakeup × ℕ
expiring ℕ.zero = (deadline, 0)
expiring (ℕ.suc n) = (tick, n)

wait_for_ready-ends_example :
    ((wait_for_ready never_ready expiring 7 2).0 ≢ still_waiting)
    × (wait_for_ready never_ready expiring 7 2 ≡ wait_for_ready never_ready expiring 3 2)
wait_for_ready-ends_example = wait_for_ready-ends never_ready expiring 2 7 2 (omega arith) (λ e. cc)

abbrev overloaded : Provider → Exec ℕ String Answer
overloaded p n = (ok (record { status_code = 503; body = "" }), n)

abbrev shutting_down : ℕ → ℕ → Bool × ℕ
shutting_down ms ℕ.zero = (true, 0)
shutting_down ms (ℕ.suc n) = (false, n)

abbrev payload : Provider
payload = record {
  name = "k8s";
  service_type = "container";
  endpoint = "http://provider/api/v1alpha1/containers";
  operations = none;
  schema_version = "v1alpha1";
  display_name = none;
  metadata = none;
}

run_from-ends_example :
    ((run_from overloaded shutting_down 9 60000 1000 payload 2).0.end ≢ exhausted)
    × ((run_from overloaded shutting_down 9 60000 1000 payload 2).0.attempts ≤ 3)
    × (run_from overloaded shutting_down 9 60000 1000 payload 2
        ≡ run_from overloaded shutting_down 3 60000 1000 payload 2)
run_from-ends_example =
    run_from-ends overloaded shutting_down 2 9 60000 1000 payload 2 (omega arith) refl

-- A registrar that is started twice, and whose goroutine ends.
abbrev twice_started : Registrar
twice_started = finish (start (start fresh))

Reaches-IsOnce_example : IsOnce twice_started
unfolding start finish
Reaches-IsOnce_example =
    Reaches-IsOnce twice_started
      (after (after (after here start_called) start_called) (run_ended refl))
