-- ===== src/Registration/Backoff.antt =====
-- The retries of the registration goroutine.
use k8s_container_service_pr.Base.{
  ℕ, zero, suc, ◌*◌, ◌≤◌, ◌<◌, Bool, true, false, ◌≢◌, [], ◌≡◌, refl, ap, inl, inr, arith, All,
  Bool-cases, ltb, ok, err, Result-cases,
}
use k8s_container_service_pr.Base.Exec.{Exec}
use k8s_container_service_pr.Registration.{
  Provider, Answer, retryable, non_retryable, register_result, registered, gave_up, next_backoff,
  run_from, exhausted, Progress, after_wait,
}

not_ltb : (a b : ℕ) → ltb a b ≡ false → b ≤ a
not_ltb a b h = ground arith

next_backoff-le : (m b : ℕ) → next_backoff m b ≤ m
unfolding next_backoff
next_backoff-le m b = elim (Bool-cases (ltb m (b * 2))) [
  | inl e ↦ rw e (omega arith)
  | inr e ↦ rw e (not_ltb m (b * 2) e)
]

register_result-client_error :
    (E : Type 0) (answer : Answer)
    → 400 ≤ answer.status_code
    → answer.status_code < 500
    → register_result {E = E} (ok answer) ≡ err non_retryable
unfolding register_result
register_result-client_error E answer lo hi = ground arith

abbrev pub AtMost : ℕ → ℕ → Type 0
AtMost m b = b ≤ m

module _ {W E : Type 0} (create_provider : Provider → Exec W E Answer)
    (wait : ℕ → W → Bool × W) where
  -- Every wait between two attempts to register is at most the maximal backoff, where the initial one is.
  pub run_from-bounded :
      (fuel max_backoff backoff : ℕ) (payload : Provider) (w : W)
      → backoff ≤ max_backoff
      → All
          (AtMost max_backoff)
          (run_from create_provider wait fuel max_backoff backoff payload w).0.waits
  unfolding run_from
  run_from-bounded zero m b p w h = tt
  run_from-bounded (suc fuel) m b p w h =
      let rest =
        run_from-bounded fuel m (next_backoff m b) p (wait b (create_provider p w).1).1
          (next_backoff-le m b) in
      elim (Result-cases (register_result (create_provider p w).0)) [
        | inl (a, e) ↦ rw (run_from, e) tt
        | inr (non_retryable, e) ↦ rw (run_from, e) tt
        | inr (retryable, e) ↦ elim (Bool-cases (wait b (create_provider p w).1).0) [
          | inl c ↦ rw (run_from, e, c) (h, tt)
          | inr c ↦ rw (run_from, e, c) (h, rest)
        ]
      ]

  -- The control plane refuses `failures` times in a way that is retried, none of the waits in between
  -- is cut short, and then it accepts.
  abbrev pub Accepts : ℕ → ℕ → ℕ → Provider → W → Type 0
  Accepts zero max_backoff backoff payload w = register_result (create_provider payload w).0 ≡ ok tt
  Accepts (suc failures) max_backoff backoff payload w =
      (register_result (create_provider payload w).0 ≡ err retryable)
      × ((wait backoff (create_provider payload w).1).0 ≡ false)
      × Accepts failures max_backoff (next_backoff max_backoff backoff) payload
          (wait backoff (create_provider payload w).1).1

  -- Where the control plane accepts after some refusals that are retried, and the context is not done
  -- before, the loop ends registered, after exactly one attempt more than there were refusals: fuel
  -- for that many attempts is enough.
  pub run_from-registers :
      (failures fuel max_backoff backoff : ℕ) (payload : Provider) (w : W)
      → failures < fuel
      → Accepts failures max_backoff backoff payload w
      → ((run_from create_provider wait fuel max_backoff backoff payload w).0.end ≡ registered)
        × ((run_from create_provider wait fuel max_backoff backoff payload w).0.attempts
            ≡ suc failures)
  unfolding run_from
  run_from-registers failures zero m b p w h a = absurd (omega arith)
  run_from-registers zero (suc fuel) m b p w h a = rw (run_from, a) (refl, refl)
  run_from-registers (suc failures) (suc fuel) m b p w h a =
      let rest =
        run_from-registers failures fuel m (next_backoff m b) p (wait b (create_provider p w).1).1
          (omega arith) a.2 in
      rw (run_from, a.0, a.1) (rest.0, ap suc rest.1)

  -- An answer of the control plane with a client error ends the loop at once, without a wait.
  pub run_from-gives_up :
      (fuel max_backoff backoff : ℕ) (payload : Provider) (w : W) (answer : Answer)
      → (create_provider payload w).0 ≡ ok answer
      → 400 ≤ answer.status_code
      → answer.status_code < 500
      → run_from create_provider wait (suc fuel) max_backoff backoff payload w
        ≡ (record { end = gave_up; attempts = 1; waits = [] }, (create_provider payload w).1)
  unfolding run_from
  run_from-gives_up fuel m b p w answer e lo hi =
      rw (run_from, e, register_result-client_error E answer lo hi)

  -- The context is done at the wait that follows some round of refusals.
  abbrev pub DoneAt : ℕ → ℕ → ℕ → Provider → W → Type 0
  DoneAt zero max_backoff backoff payload w = (wait backoff (create_provider payload w).1).0 ≡ true
  DoneAt (suc rounds) max_backoff backoff payload w =
      DoneAt rounds max_backoff (next_backoff max_backoff backoff) payload
        (wait backoff (create_provider payload w).1).1

  -- Where the end of the context is seen at the wait after some round, the loop ends after one attempt
  -- more at most, registered, refused or cancelled: every fuel of more rounds gives the same result.
  pub run_from-ends :
      (rounds fuel max_backoff backoff : ℕ) (payload : Provider) (w : W)
      → rounds < fuel
      → DoneAt rounds max_backoff backoff payload w
      → ((run_from create_provider wait fuel max_backoff backoff payload w).0.end ≢ exhausted)
        × ((run_from create_provider wait fuel max_backoff backoff payload w).0.attempts
            ≤ suc rounds)
        × (run_from create_provider wait fuel max_backoff backoff payload w
            ≡ run_from create_provider wait (suc rounds) max_backoff backoff payload w)
  unfolding run_from
  run_from-ends rounds zero m b p w h done = absurd (omega arith)
  run_from-ends zero (suc fuel) m b p w h done =
      elim (Result-cases (register_result (create_provider p w).0)) [
        | inl (a, e) ↦ rw (run_from, e) ((λ z. cc), omega arith, refl)
        | inr (non_retryable, e) ↦ rw (run_from, e) ((λ z. cc), omega arith, refl)
        | inr (retryable, e) ↦ rw (run_from, e, done) ((λ z. cc), omega arith, refl)
      ]
  run_from-ends (suc rounds) (suc fuel) m b p w h done =
      let (ends, few, same) =
        run_from-ends rounds fuel m (next_backoff m b) p (wait b (create_provider p w).1).1
          (omega arith) done in
      elim (Result-cases (register_result (create_provider p w).0)) [
        | inl (a, e) ↦ rw (run_from, e) ((λ z. cc), omega arith, refl)
        | inr (non_retryable, e) ↦ rw (run_from, e) ((λ z. cc), omega arith, refl)
        | inr (retryable, e) ↦ elim (Bool-cases (wait b (create_provider p w).1).0) [
          | inl c ↦ rw (run_from, e, c) ((λ z. cc), omega arith, refl)
          | inr c ↦
              rw (run_from, e, c)
                (ends, omega (arith, few), ap (λ (x : Progress × W). (after_wait b x.0, x.1)) same)
        ]
      ]
