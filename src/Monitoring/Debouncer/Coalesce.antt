-- ===== src/Monitoring/Debouncer/Coalesce.antt =====
-- A burst of events of one instance within the interval.
use k8s_container_service_pr.Base.{
  ℕ, suc, ◌+◌, String, true, false, List, [], ◌∷◌, ◌++◌, ◌≡◌, ◌∙◌, ap, eqb, length, eq_refl, lookup,
  sym, arith,
}
use mathlib.Core.Path.{subst}
use k8s_container_service_pr.Monitoring.Debouncer.{
  Debouncer, StatusEvent, armed, fired, publishing, Step, submit_step, fire_step, callback_step,
  publish_step, step, run, submit, fire, callback, publish, new_debouncer,
}

eqb_refl : (n : ℕ) → eqb n n ≡ true
eqb_refl n = ground arith

-- The state with one armed timer.
abbrev waiting : String → ℕ → StatusEvent → Debouncer
waiting id h event = record {
  timers = (id, h) ∷ [];
  stopped = false;
  pool = record { handle = h; instance_id = id; event = event; phase = armed } ∷ [];
  next_handle = suc h;
  published = [];
}

submit-waiting :
    (id : String) (h : ℕ) (e f : StatusEvent) → submit id f (waiting id h e) ≡ waiting id (suc h) f
unfolding submit lookup
submit-waiting id h e f = rw (eq_refl id, eqb_refl h)

abbrev pub burst : String → List StatusEvent → List Step
burst id [] = []
burst id (e ∷ es) = submit_step id e ∷ burst id es

-- The last of a non-empty sequence.
abbrev pub last_from : StatusEvent → List StatusEvent → StatusEvent
last_from e [] = e
last_from e (f ∷ fs) = last_from f fs

-- The interval of a timer passes and its callback runs to its end.
abbrev pub elapse : ℕ → List Step
elapse h = fire_step h ∷ callback_step h ∷ publish_step h ∷ []

fire-waiting :
    (id : String) (h : ℕ) (e : StatusEvent)
    → fire h (waiting id h e) ≡ record (waiting id h e) {
      pool = record { handle = h; instance_id = id; event = e; phase = fired } ∷ [];
    }
unfolding fire
fire-waiting id h e = rw (eqb_refl h)

callback-fired :
    (id : String) (h : ℕ) (e : StatusEvent)
    → callback h (record (waiting id h e) {
      pool = record { handle = h; instance_id = id; event = e; phase = fired } ∷ [];
    })
      ≡ record (waiting id h e) {
        timers = [];
        pool = record { handle = h; instance_id = id; event = e; phase = publishing } ∷ [];
      }
unfolding callback
callback-fired id h e = ground (arith, eqb_refl h, eq_refl id)

abbrev idle : ℕ → StatusEvent → Debouncer
idle h e = record { timers = []; stopped = false; pool = []; next_handle = h; published = e ∷ [] }

publish-publishing :
    (id : String) (h : ℕ) (e : StatusEvent)
    → publish h (record (waiting id h e) {
      timers = [];
      pool = record { handle = h; instance_id = id; event = e; phase = publishing } ∷ [];
    })
      ≡ idle (suc h) e
unfolding publish
publish-publishing id h e = ground (arith, eqb_refl h)

elapse-waiting :
    (id : String) (h : ℕ) (e : StatusEvent) → run (elapse h) (waiting id h e) ≡ idle (suc h) e
unfolding run step
elapse-waiting id h e =
    ap (λ d. publish h (callback h d)) (fire-waiting id h e)
    ∙ ap (publish h) (callback-fired id h e)
    ∙ publish-publishing id h e

burst-waiting :
    (id : String) (h : ℕ) (e : StatusEvent) (es : List StatusEvent)
    → run (burst id es ++ elapse (length es + h)) (waiting id h e)
      ≡ idle (suc (length es + h)) (last_from e es)
unfolding run step
burst-waiting id h e [] =
    subst (λ n. run (elapse n) (waiting id h e) ≡ idle (suc n) e) (sym zero_plus)
      (elapse-waiting id h e)
  where
    zero_plus : 0 + h ≡ h
    zero_plus = omega arith
burst-waiting id h e (f ∷ fs) =
    ap (run (burst id fs ++ elapse (suc (length fs) + h))) (submit-waiting id h e f)
    ∙ subst
        (λ n. run (burst id fs ++ elapse n) (waiting id (suc h) f) ≡ idle (suc n) (last_from f fs))
        plus_suc (burst-waiting id (suc h) f fs)
  where
    plus_suc : length fs + suc h ≡ suc (length fs) + h
    plus_suc = omega arith

-- Of a burst of events of one instance whose interval does not pass before the last of them, exactly
-- the last event is published, once its own interval has passed, and no timer is left.
pub run-burst :
    (id : String) (e : StatusEvent) (es : List StatusEvent)
    → run (burst id (e ∷ es) ++ elapse (length es)) new_debouncer ≡ record {
      timers = [];
      stopped = false;
      pool = [];
      next_handle = suc (length es);
      published = last_from e es ∷ [];
    }
unfolding run step submit new_debouncer lookup
run-burst id e es =
    subst (λ n. run (burst id es ++ elapse n) (waiting id 0 e) ≡ idle (suc n) (last_from e es))
      plus_zero (burst-waiting id 0 e es)
  where
    plus_zero : length es + 0 ≡ length es
    plus_zero = omega arith
