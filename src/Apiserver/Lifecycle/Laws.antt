-- ===== src/Apiserver/Lifecycle/Laws.antt =====
-- When the server is ready, and when the rest of the provider is started.
use k8s_container_service_pr.Base.{
  ℕ, zero, suc, ◌<◌, false, ◌≡◌, ◌≢◌, refl, arith, eqb, Result, ok, err, Result-cases, true,
  Bool-cases, ◌⊎◌, inl, inr, sym, ap, ◌∙◌,
}
use k8s_container_service_pr.Base.Exec.{Exec}
use k8s_container_service_pr.Apiserver.Lifecycle.{
  Wakeup, context_done, deadline, tick, Readiness, ready, cancelled, timed_out, request_failed,
  still_waiting, ProbeError, no_request, no_answer, wait_for_ready,
}

-- A probe that is sent and is not answered 200.
abbrev pub IsRefused : Result ProbeError ℕ → Type 0
IsRefused (ok code) = eqb code 200 ≡ false
IsRefused (err no_request) = ⊥
IsRefused (err no_answer) = Unit

module _ {W : Type 0} (probe : Exec W ProbeError ℕ) (select : W → Wakeup × W) where
  -- The server answers 200 after `rounds` probes that it does not, each followed by a tick.
  abbrev pub AnswersAfter : ℕ → W → Type 0
  AnswersAfter zero w = (probe w).0 ≡ ok 200
  AnswersAfter (suc rounds) w =
      IsRefused (probe w).0
      × ((select (probe w).1).0 ≡ tick)
      × AnswersAfter rounds (select (probe w).1).1

  -- Where the health endpoint answers 200 after some rounds, before the deadline and the end of the
  -- context, the server is found ready: fuel for one round more is enough.
  pub wait_for_ready-ready :
      (rounds fuel : ℕ) (w : W)
      → rounds < fuel
      → AnswersAfter rounds w
      → (wait_for_ready probe select fuel w).0 ≡ ready
  unfolding wait_for_ready
  wait_for_ready-ready rounds zero w h a = absurd (omega arith)
  wait_for_ready-ready zero (suc fuel) w h a = rw (wait_for_ready, a) refl
  wait_for_ready-ready (suc rounds) (suc fuel) w h a =
      refused (probe w).0 refl a.0
        (wait_for_ready-ready rounds fuel (select (probe w).1).1 (omega arith) a.2)
    where
      refused :
          (r : Result ProbeError ℕ)
          → (probe w).0 ≡ r
          → IsRefused r
          → (wait_for_ready probe select fuel (select (probe w).1).1).0 ≡ ready
          → (wait_for_ready probe select (suc fuel) w).0 ≡ ready
      refused (ok code) e n rest = rw (wait_for_ready, e, n, a.1) rest
      refused (err no_request) e n rest = absurd n
      refused (err no_answer) e n rest = rw (wait_for_ready, e, a.1) rest

  -- The world that `rounds` unsuccessful rounds leave.
  abbrev pub after_rounds : ℕ → W → W
  after_rounds zero w = w
  after_rounds (suc rounds) w = after_rounds rounds (select (probe w).1).1

  -- A round ends the loop, in a way that no fuel changes, or it goes on after a tick.
  RoundEnds : W → Type 0
  RoundEnds w =
      (x : Readiness × W) × (x.0 ≢ still_waiting)
      × ((fuel : ℕ) → wait_for_ready probe select (suc fuel) w ≡ x)

  RoundGoesOn : W → Type 0
  RoundGoesOn w =
      ((select (probe w).1).0 ≡ tick)
      × ((fuel : ℕ)
          → wait_for_ready probe select (suc fuel) w
            ≡ wait_for_ready probe select fuel (select (probe w).1).1)

  RoundResult : W → Type 0
  RoundResult w = RoundEnds w ⊎ RoundGoesOn w

  module _ (w : W) where
    abbrev woken : Wakeup × W
    woken = select (probe w).1

    round_failed :
        (x : ProbeError) → (probe w).0 ≡ err x → (s : Wakeup) → woken.0 ≡ s → RoundResult w
    unfolding wait_for_ready RoundResult RoundEnds RoundGoesOn
    round_failed no_request e s f =
        inl ((request_failed, (probe w).1), (λ n. cc), (λ fuel. rw (wait_for_ready, e) refl))
    round_failed no_answer e context_done f =
        inl ((cancelled, woken.1), (λ n. cc), (λ fuel. rw (wait_for_ready, e, f) refl))
    round_failed no_answer e deadline f =
        inl ((timed_out, woken.1), (λ n. cc), (λ fuel. rw (wait_for_ready, e, f) refl))
    round_failed no_answer e tick f = inr (f, (λ fuel. rw (wait_for_ready, e, f) refl))

    round_answered :
        (code : ℕ)
        → (probe w).0 ≡ ok code
        → (eqb code 200 ≡ true) ⊎ (eqb code 200 ≡ false)
        → (s : Wakeup) → woken.0 ≡ s
        → RoundResult w
    unfolding wait_for_ready RoundResult RoundEnds RoundGoesOn
    round_answered code e (inl y) s f =
        inl ((ready, (probe w).1), (λ n. cc), (λ fuel. rw (wait_for_ready, e, y) refl))
    round_answered code e (inr n) context_done f =
        inl ((cancelled, woken.1), (λ n. cc), (λ fuel. rw (wait_for_ready, e, n, f) refl))
    round_answered code e (inr n) deadline f =
        inl ((timed_out, woken.1), (λ n. cc), (λ fuel. rw (wait_for_ready, e, n, f) refl))
    round_answered code e (inr n) tick f = inr (f, (λ fuel. rw (wait_for_ready, e, n, f) refl))

    round-cases : RoundResult w
    round-cases = elim (Result-cases (probe w).0) [
      | inl (code, e) ↦ round_answered code e (Bool-cases (eqb code 200)) woken.0 refl
      | inr (x, e) ↦ round_failed x e woken.0 refl
    ]

  -- Where the deadline or the end of the context is what ends the wait of some round, the probe ends,
  -- ready or not: every fuel of more rounds than that gives the same result, which is one of the code.
  pub wait_for_ready-ends :
      (rounds fuel : ℕ) (w : W)
      → rounds < fuel
      → (select (probe (after_rounds rounds w)).1).0 ≢ tick
      → ((wait_for_ready probe select fuel w).0 ≢ still_waiting)
        × (wait_for_ready probe select fuel w ≡ wait_for_ready probe select (suc rounds) w)
  unfolding RoundResult RoundEnds RoundGoesOn
  wait_for_ready-ends rounds zero w h stop = absurd (omega arith)
  wait_for_ready-ends zero (suc fuel) w h stop = elim (round-cases w) [
    | inl (x, n, k) ↦ ((λ z. n (ap (λ p. p.0) (sym (k fuel)) ∙ z)), k fuel ∙ sym (k 0))
    | inr (t, k) ↦ absurd (stop t)
  ]
  wait_for_ready-ends (suc rounds) (suc fuel) w h stop = elim (round-cases w) [
    | inl (x, n, k) ↦ ((λ z. n (ap (λ p. p.0) (sym (k fuel)) ∙ z)), k fuel ∙ sym (k (suc rounds)))
    | inr (t, k) ↦
        let (n, same) = wait_for_ready-ends rounds fuel (select (probe w).1).1 (omega arith) stop in
        ((λ z. n (ap (λ p. p.0) (sym (k fuel)) ∙ z)), k fuel ∙ same ∙ sym (k (suc rounds)))
  ]
