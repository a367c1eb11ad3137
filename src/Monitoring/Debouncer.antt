-- ===== src/Monitoring/Debouncer.antt =====
-- internal/monitoring/debouncer.go as a state machine. The mutex makes each locked section one step;
-- what time.AfterFunc starts is a pool of timers, and the schedule says when they fire and when their
-- callbacks get the lock.
pub mod Coalesce
pub mod Shutdown
pub mod Conserved
use k8s_container_service_pr.Base.{
  ℕ, zero, suc, ◌+◌, String, Bool, true, false, not, ◌&&◌, Option, none, some, List, [], ◌∷◌, ◌++◌,
  if◌then◌else◌, ◌==◌, eqb, filter, any, lookup,
}
use k8s_container_service_pr.Api.Enums.{ContainerStatus}

-- internal/monitoring/publisher.go
pub record StatusEvent : Type 0 where
  pub instance_id : String
  pub status : ContainerStatus
  pub message : String

-- A timer waits for its interval, or has fired and its callback waits for the lock, or the callback
-- is past its locked section and publishes.
pub data Phase : Type 0 where
  armed fired publishing : Phase

pub record Timer : Type 0 where
  pub handle : ℕ
  pub instance_id : String
  pub event : StatusEvent
  pub phase : Phase

pub record Debouncer : Type 0 where
  pub timers : List (String × ℕ)
  pub stopped : Bool
  pub pool : List Timer
  pub next_handle : ℕ
  pub published : List StatusEvent

-- NewDebouncer
unfoldable pub new_debouncer : Debouncer
new_debouncer = record { timers = []; stopped = false; pool = []; next_handle = 0; published = [] }

abbrev is_armed : Phase → Bool
is_armed armed = true
is_armed _ = false

abbrev is_fired : Phase → Bool
is_fired fired = true
is_fired _ = false

abbrev pub is_publishing : Phase → Bool
is_publishing publishing = true
is_publishing _ = false

-- t.Stop(): a timer that has fired is not stopped.
abbrev stop_timer : ℕ → List Timer → List Timer
stop_timer h = filter (λ t. not (eqb t.handle h && is_armed t.phase))

abbrev stop_found : Option ℕ → List Timer → List Timer
stop_found none pool = pool
stop_found (some h) pool = stop_timer h pool

-- delete(d.timers, id)
abbrev without_key : String → List (String × ℕ) → List (String × ℕ)
without_key id = filter (λ e. not (e.0 == id))

-- Submit
unfoldable pub submit : String → StatusEvent → Debouncer → Debouncer
submit id event d = if d.stopped then d else record d {
  timers = (id, d.next_handle) ∷ without_key id d.timers;
  pool =
      record { handle = d.next_handle; instance_id = id; event = event; phase = armed }
      ∷ stop_found (lookup id d.timers) d.pool;
  next_handle = suc d.next_handle;
}

abbrev set_phase : Phase → Timer → Timer
set_phase p t = record t { phase = p }

-- The runtime: the interval of a timer has passed.
abbrev fire_in : ℕ → List Timer → List Timer
fire_in h [] = []
fire_in h (t ∷ ts) =
    (if eqb t.handle h && is_armed t.phase then set_phase fired t else t) ∷ fire_in h ts

unfoldable pub fire : ℕ → Debouncer → Debouncer
fire h d = record d { pool = fire_in h d.pool }

abbrev find_timer : (Phase → Bool) → ℕ → List Timer → Option Timer
find_timer p h [] = none
find_timer p h (t ∷ ts) = if eqb t.handle h && p t.phase then some t else find_timer p h ts

abbrev remove_timer : ℕ → List Timer → List Timer
remove_timer h = filter (λ t. not (eqb t.handle h))

abbrev publish_in : ℕ → List Timer → List Timer
publish_in h [] = []
publish_in h (t ∷ ts) = (if eqb t.handle h then set_phase publishing t else t) ∷ publish_in h ts

abbrev callback_of : ℕ → Option Timer → Debouncer → Debouncer
callback_of h none d = d
callback_of h (some t) d =
    if d.stopped
    then record d { pool = remove_timer h d.pool }
    else record d { timers = without_key t.instance_id d.timers; pool = publish_in h d.pool }

-- The locked section of the callback of a timer that has fired.
unfoldable pub callback : ℕ → Debouncer → Debouncer
callback h d = callback_of h (find_timer is_fired h d.pool) d

abbrev publish_of : ℕ → Option Timer → Debouncer → Debouncer
publish_of h none d = d
publish_of h (some t) d = record d {
  pool = remove_timer h d.pool;
  published = d.published ++ t.event ∷ [];
}

-- d.publishFn(event) and d.wg.Done()
unfoldable pub publish : ℕ → Debouncer → Debouncer
publish h d = publish_of h (find_timer is_publishing h d.pool) d

abbrev stop_all : List (String × ℕ) → List Timer → List Timer
stop_all [] pool = pool
stop_all (e ∷ es) pool = stop_all es (stop_timer e.1 pool)

-- The locked section of Stop.
unfoldable pub stop : Debouncer → Debouncer
stop d = record d { stopped = true; timers = []; pool = stop_all d.timers d.pool }

-- d.wg.Wait() returns when no callback is publishing.
unfoldable pub is_drained : Debouncer → Bool
is_drained d = not (any (λ t. is_publishing t.phase) d.pool)

pub data Step : Type 0 where
  submit_step : String → StatusEvent → Step
  fire_step callback_step publish_step : ℕ → Step
  stop_step : Step

unfoldable pub step : Step → Debouncer → Debouncer
unfolding submit fire callback publish stop
step (submit_step id event) d = submit id event d
step (fire_step h) d = fire h d
step (callback_step h) d = callback h d
step (publish_step h) d = publish h d
step stop_step d = stop d

-- A schedule of steps.
unfoldable pub run : List Step → Debouncer → Debouncer
unfolding step
run [] d = d
run (s ∷ ss) d = run ss (step s d)
