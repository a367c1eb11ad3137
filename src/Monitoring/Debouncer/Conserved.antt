-- ===== src/Monitoring/Debouncer/Conserved.antt =====
-- What the debouncer publishes, against what was submitted to it.
use k8s_container_service_pr.Base.{
  ℕ, ◌+◌, ◌≤◌, String, Bool, not, ◌&&◌, Option, none, some, List, [], ◌∷◌, ◌≡◌, refl, ap, inl, inr,
  eqb, filter, length, length-filter_comm-le, filter-append, length-append, arith, Bool-cases,
  Option-cases, lookup,
}
use k8s_container_service_pr.Monitoring.Debouncer.{
  StatusEvent, Timer, Debouncer, new_debouncer, Step, submit_step, fire_step, callback_step,
  publish_step, stop_step, step, run, submit, fire, callback, publish, stop, is_armed, is_fired,
  is_publishing, Phase, armed, stop_all, stop_found, stop_timer, find_timer, fire_in, publish_in,
  remove_timer,
}

-- The events that a schedule submits.
abbrev pub submissions : List Step → List StatusEvent
submissions [] = []
submissions (submit_step id event ∷ ss) = event ∷ submissions ss
submissions (fire_step h ∷ ss) = submissions ss
submissions (callback_step h ∷ ss) = submissions ss
submissions (publish_step h ∷ ss) = submissions ss
submissions (stop_step ∷ ss) = submissions ss

module _ (q : StatusEvent → Bool) where
  abbrev pub count : List StatusEvent → ℕ
  count es = length (filter q es)

  abbrev waiting : List Timer → ℕ
  waiting pool = length (filter (λ t. q t.event) pool)

  waiting-fire_in : (h : ℕ) (pool : List Timer) → waiting (fire_in h pool) ≡ waiting pool
  waiting-fire_in h [] = refl
  waiting-fire_in h (t ∷ ts) = elim (Bool-cases (eqb t.handle h && is_armed t.phase)) [
    | inl e ↦ elim (Bool-cases (q t.event)) [
      | inl f ↦ rw (e, f, waiting-fire_in h ts)
      | inr f ↦ rw (e, f, waiting-fire_in h ts)
    ]
    | inr e ↦ elim (Bool-cases (q t.event)) [
      | inl f ↦ rw (e, f, waiting-fire_in h ts)
      | inr f ↦ rw (e, f, waiting-fire_in h ts)
    ]
  ]

  waiting-publish_in : (h : ℕ) (pool : List Timer) → waiting (publish_in h pool) ≡ waiting pool
  waiting-publish_in h [] = refl
  waiting-publish_in h (t ∷ ts) = elim (Bool-cases (eqb t.handle h)) [
    | inl e ↦ elim (Bool-cases (q t.event)) [
      | inl f ↦ rw (e, f, waiting-publish_in h ts)
      | inr f ↦ rw (e, f, waiting-publish_in h ts)
    ]
    | inr e ↦ elim (Bool-cases (q t.event)) [
      | inl f ↦ rw (e, f, waiting-publish_in h ts)
      | inr f ↦ rw (e, f, waiting-publish_in h ts)
    ]
  ]

  waiting-stop_all :
      (ts : List (String × ℕ)) (pool : List Timer) → waiting (stop_all ts pool) ≤ waiting pool
  waiting-stop_all [] pool = omega arith
  waiting-stop_all (e ∷ es) pool = omega (
    arith,
    waiting-stop_all es (stop_timer e.1 pool),
    length-filter_comm-le (λ (t : Timer). q t.event)
        (λ t. not (eqb t.handle e.1 && is_armed t.phase)) pool,
  )

  waiting-stop_found :
      (found : Option ℕ) (pool : List Timer) → waiting (stop_found found pool) ≤ waiting pool
  waiting-stop_found none pool = omega arith
  waiting-stop_found (some h) pool =
      length-filter_comm-le (λ (t : Timer). q t.event)
        (λ t. not (eqb t.handle h && is_armed t.phase)) pool

  waiting-cons :
      (s : Timer) (ss : List Timer) → waiting (s ∷ ss) ≡ count (s.event ∷ []) + waiting ss
  waiting-cons s ss = elim (Bool-cases (q s.event)) [
    | inl e ↦ rw e (omega arith)
    | inr e ↦ rw e (omega arith)
  ]

  waiting-remove_le : (h : ℕ) (pool : List Timer) → waiting (remove_timer h pool) ≤ waiting pool
  waiting-remove_le h pool =
      length-filter_comm-le (λ (t : Timer). q t.event) (λ t. not (eqb t.handle h)) pool

  -- A timer that is found is one that its removal takes out.
  waiting-remove_timer :
      (p : Phase → Bool) (h : ℕ) (pool : List Timer) (t : Timer)
      → find_timer p h pool ≡ some t
      → count (t.event ∷ []) + waiting (remove_timer h pool) ≤ waiting pool
  waiting-remove_timer p h [] t e = absurd (none≢some e)
    where
      none≢some : none ≡ some t → ⊥
      none≢some z = cc
  waiting-remove_timer p h (s ∷ ss) t e = elim (Bool-cases (eqb s.handle h)) [
    | inr other ↦
        let rest = waiting-remove_timer p h ss t (rw other at e) in
        rw other (omega (arith, rest, waiting-cons s ss, waiting-cons s (remove_timer h ss)))
    | inl mine ↦ elim (Bool-cases (p s.phase)) [
      | inl right ↦
          let same : s ≡ t = some_inj (rw (mine, right) at e) in
          rw mine (
            omega (
              arith,
              ap (λ (u : Timer). count (u.event ∷ [])) same,
              waiting-cons s ss,
              waiting-remove_le h ss,
            ))
      | inr wrong ↦
          let rest = waiting-remove_timer p h ss t (rw (mine, wrong) at e) in
          rw mine (omega (arith, rest, waiting-cons s ss))
    ]
  ]
    where
      some_inj : some s ≡ some t → s ≡ t
      some_inj z = cc

  -- What was published and what may still be, of the events that pass the test.
  abbrev Within : ℕ → Debouncer → Type 0
  Within k d = count d.published + waiting d.pool ≤ k

  step-Within :
      (k : ℕ) (s : Step) (d : Debouncer)
      → Within k d
      → Within (k + count (submissions (s ∷ []))) (step s d)
  unfolding step submit fire callback publish stop
  step-Within k (submit_step id event) d h = elim (Bool-cases d.stopped) [
    | inl e ↦ rw e (omega (arith, h))
    | inr e ↦
        let new : Timer = record {
          handle = d.next_handle;
          instance_id = id;
          event = event;
          phase = armed;
        } in
        let found = lookup id d.timers in
        rw e (
          omega
            (arith, h, waiting-cons new (stop_found found d.pool), waiting-stop_found found d.pool))
  ]
  step-Within k (fire_step h) d w = omega (arith, w, waiting-fire_in h d.pool)
  step-Within k (callback_step h) d w = elim (Option-cases (find_timer is_fired h d.pool)) [
    | inl e ↦ rw e (omega (arith, w))
    | inr (t, e) ↦ elim (Bool-cases d.stopped) [
      | inl f ↦ rw (e, f) (omega (arith, w, waiting-remove_le h d.pool))
      | inr f ↦ rw (e, f) (omega (arith, w, waiting-publish_in h d.pool))
    ]
  ]
  step-Within k (publish_step h) d w = elim (Option-cases (find_timer is_publishing h d.pool)) [
    | inl e ↦ rw e (omega (arith, w))
    | inr (t, e) ↦
        rw (e, filter-append q d.published (t.event ∷ []))
          (omega (
            arith,
            w,
            length-append (filter q d.published) (filter q (t.event ∷ [])),
            waiting-remove_timer is_publishing h d.pool t e,
          ))
  ]
  step-Within k stop_step d w = omega (arith, w, waiting-stop_all d.timers d.pool)

  submissions-cons :
      (s : Step) (ss : List Step)
      → count (submissions (s ∷ [])) + count (submissions ss) ≡ count (submissions (s ∷ ss))
  submissions-cons (submit_step id event) ss = elim (Bool-cases (q event)) [
    | inl e ↦ rw e (omega arith)
    | inr e ↦ rw e (omega arith)
  ]
  submissions-cons (fire_step h) ss = omega arith
  submissions-cons (callback_step h) ss = omega arith
  submissions-cons (publish_step h) ss = omega arith
  submissions-cons stop_step ss = omega arith

  run-Within :
      (k : ℕ) (ss : List Step) (d : Debouncer)
      → Within k d
      → Within (k + count (submissions ss)) (run ss d)
  unfolding run
  run-Within k [] d w = omega (arith, w)
  run-Within k (s ∷ ss) d w = omega (
    arith,
    submissions-cons s ss,
    run-Within (k + count (submissions (s ∷ []))) ss (step s d) (step-Within k s d w),
  )

  -- Under every schedule of submits, timer firings, callbacks, publications and stops, the events that
  -- pass a test are published at most as often as such events were submitted: the debouncer makes no
  -- event up, and publishes none twice.
  pub run-at_most_submitted :
      (ss : List Step) → count (run ss new_debouncer).published ≤ count (submissions ss)
  unfolding new_debouncer
  run-at_most_submitted ss = omega (arith, run-Within 0 ss new_debouncer (omega arith))
