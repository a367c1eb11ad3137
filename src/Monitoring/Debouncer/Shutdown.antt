-- ===== src/Monitoring/Debouncer/Shutdown.antt =====
-- What is left of the debouncer after Stop, whatever the runtime's timers still do.
use k8s_container_service_pr.Base.{
  ℕ, Bool, true, false, ◌&&◌, Option, none, some, List, [], ◌∷◌, ◌≡◌, ◌∙◌, sym, refl, inl, inr, All,
  All-filter, Bool-cases, if◌then◌else◌, eqb, String,
}
use mathlib.Core.Path.{subst}
use k8s_container_service_pr.Monitoring.Debouncer.{
  Debouncer, StatusEvent, Timer, Step, submit_step, fire_step, callback_step, publish_step,
  stop_step, step, run, submit, fire, callback, publish, stop, is_publishing, is_armed, is_fired,
  stop_all, stop_timer, find_timer, fire_in, publish_of, callback_of,
}

abbrev IsQuiet : Timer → Type 0
IsQuiet t = is_publishing t.phase ≡ false

-- Stop has taken effect, and no callback is past its locked section.
abbrev pub IsShut : Debouncer → Type 0
IsShut d = (d.stopped ≡ true) × All IsQuiet d.pool

stop_all-IsQuiet :
    (ts : List (String × ℕ)) (pool : List Timer) → All IsQuiet pool → All IsQuiet (stop_all ts pool)
stop_all-IsQuiet [] pool h = h
stop_all-IsQuiet (e ∷ es) pool h =
    stop_all-IsQuiet es (stop_timer e.1 pool) (All-filter IsQuiet _ pool h)

fire_in-IsQuiet : (h : ℕ) (pool : List Timer) → All IsQuiet pool → All IsQuiet (fire_in h pool)
fire_in-IsQuiet h [] q = tt
fire_in-IsQuiet h (t ∷ ts) q = elim (Bool-cases (eqb t.handle h && is_armed t.phase)) [
  | inl e ↦ rw e (refl, fire_in-IsQuiet h ts q.1)
  | inr e ↦ rw e (q.0, fire_in-IsQuiet h ts q.1)
]

and_false : (a : Bool) → (a && false) ≡ false
and_false true = refl
and_false false = refl

find_timer-quiet :
    (h : ℕ) (pool : List Timer) → All IsQuiet pool → find_timer is_publishing h pool ≡ none
find_timer-quiet h [] q = refl
find_timer-quiet h (t ∷ ts) q = rw (q.0, and_false (eqb t.handle h), find_timer-quiet h ts q.1)

pick_true {ℓ} : {A : Type ℓ} (b : Bool) (x y : A) → b ≡ true → (if b then x else y) ≡ x
pick_true b x y e = rw e

callback_of-IsShut :
    (h : ℕ) (found : Option Timer) (d : Debouncer)
    → IsShut d
    → IsShut (callback_of h found d) × ((callback_of h found d).published ≡ d.published)
callback_of-IsShut h none d s = (s, refl)
callback_of-IsShut h (some t) d s =
    subst (λ r. IsShut r × (r.published ≡ d.published)) (sym (pick_true d.stopped _ _ s.0))
      ((s.0, All-filter IsQuiet _ d.pool s.1), refl)

submit-IsShut :
    (id : String) (event : StatusEvent) (d : Debouncer)
    → IsShut d
    → IsShut (submit id event d) × ((submit id event d).published ≡ d.published)
unfolding submit
submit-IsShut id event d s =
    subst (λ r. IsShut r × (r.published ≡ d.published)) (sym (pick_true d.stopped _ _ s.0))
      (s, refl)

publish_of-IsShut :
    (h : ℕ) (found : Option Timer) (d : Debouncer)
    → found ≡ none
    → IsShut d
    → IsShut (publish_of h found d) × ((publish_of h found d).published ≡ d.published)
publish_of-IsShut h found d e s = rw e (s, refl)

step-IsShut :
    (s : Step) (d : Debouncer) → IsShut d → IsShut (step s d) × ((step s d).published ≡ d.published)
unfolding step fire callback publish stop
step-IsShut (submit_step id event) d s = submit-IsShut id event d s
step-IsShut (fire_step h) d s = ((s.0, fire_in-IsQuiet h d.pool s.1), refl)
step-IsShut (callback_step h) d s = callback_of-IsShut h (find_timer is_fired h d.pool) d s
step-IsShut (publish_step h) d s =
    publish_of-IsShut h (find_timer is_publishing h d.pool) d (find_timer-quiet h d.pool s.1) s
step-IsShut stop_step d s = ((refl, stop_all-IsQuiet d.timers d.pool s.1), refl)

-- Once the debouncer is stopped and no callback publishes, no schedule of submits, timer firings,
-- callbacks and stops makes it publish another event, and it stays so.
pub run-IsShut :
    (ss : List Step) (d : Debouncer)
    → IsShut d
    → IsShut (run ss d) × ((run ss d).published ≡ d.published)
unfolding run
run-IsShut [] d s = (s, refl)
run-IsShut (s ∷ ss) d h =
    let after = step-IsShut s d h in
    let rest = run-IsShut ss (step s d) after.0 in (rest.0, rest.1 ∙ after.1)
