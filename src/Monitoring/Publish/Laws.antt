-- ===== src/Monitoring/Publish/Laws.antt =====
-- The bounds of publishWithRetry.
use k8s_container_service_pr.Base.{
  ℕ, zero, suc, ◌*◌, ◌≤◌, Bool, List, [], ◌∷◌, ◌≡◌, refl, ap, inl, inr, arith, Bool-cases, take,
  length, Result-cases,
}
use k8s_container_service_pr.Base.Exec.{Exec}
use k8s_container_service_pr.Monitoring.Debouncer.{StatusEvent}
use k8s_container_service_pr.Monitoring.Publish.{
  delivered, gave_up, cancelled, Trace, publish_from, publish_with_retry, max_attempts,
}

-- The waits between `suc left` attempts, each twice the one before.
abbrev doubling : ℕ → ℕ → List ℕ
doubling zero b = []
doubling (suc left) b = b ∷ doubling left (b * 2)

-- What one can say of a trace: a prefix of the waits, at most so many attempts, and all of them where
-- it gave up.
abbrev IsBounded : ℕ → ℕ → Trace → Type 0
IsBounded left backoff t =
    (t.waits ≡ take (length t.waits) (doubling left backoff))
    × (t.attempts ≤ suc left)
    × (t.end ≡ gave_up → t.attempts ≡ suc left)

module _ {W E : Type 0} (publish : StatusEvent → Exec W E (Unit {0}))
    (wait : ℕ → W → Bool × W) where
  delivered≢gave_up : delivered ≡ gave_up → ⊥
  delivered≢gave_up h = cc

  cancelled≢gave_up : cancelled ≡ gave_up → ⊥
  cancelled≢gave_up h = cc

  publish_from-IsBounded :
      (left backoff : ℕ) (event : StatusEvent) (w : W)
      → IsBounded left backoff (publish_from publish wait left backoff event w).0
  unfolding publish_from
  publish_from-IsBounded zero b event w = elim (Result-cases (publish event w).0) [
    | inl (a, e) ↦ rw (publish_from, e) (refl, omega arith, λ g. refl)
    | inr (f, e) ↦ rw (publish_from, e) (refl, omega arith, λ g. refl)
  ]
  publish_from-IsBounded (suc left) b event w =
      let rest = publish_from-IsBounded left (b * 2) event (wait b (publish event w).1).1 in
      elim (Result-cases (publish event w).0) [
        | inl (a, e) ↦ rw (publish_from, e) (refl, omega arith, λ g. absurd (delivered≢gave_up g))
        | inr (f, e) ↦ elim (Bool-cases (wait b (publish event w).1).0) [
          | inl c ↦ rw (publish_from, e, c) (refl, omega arith, λ g. absurd (cancelled≢gave_up g))
          | inr c ↦
              rw (publish_from, e, c)
                (ap (λ l. b ∷ l) rest.0, omega (arith, rest.1), λ g. ap suc (rest.2 g))
        ]
      ]

  -- Publishing an event ends after at most five attempts; the waits between them are the first of 10,
  -- 20, 40 and 80 milliseconds; and the event is dropped only after all five attempts.
  pub publish_with_retry-bounded :
      (event : StatusEvent) (w : W)
      → ((publish_with_retry publish wait event w).0.waits
          ≡ take
              (length (publish_with_retry publish wait event w).0.waits)
              (10 ∷ 20 ∷ 40 ∷ 80 ∷ []))
        × ((publish_with_retry publish wait event w).0.attempts ≤ max_attempts)
        × ((publish_with_retry publish wait event w).0.end ≡ gave_up
            → (publish_with_retry publish wait event w).0.attempts ≡ max_attempts)
  unfolding publish_with_retry
  publish_with_retry-bounded event w = publish_from-IsBounded 4 10 event w
