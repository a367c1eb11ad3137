-- ===== src/Monitoring/Publish.antt =====
-- publishWithRetry of internal/monitoring/monitor.go, with the cloud event of event.go.
pub mod Laws
use k8s_container_service_pr.Base.{
  ℕ, zero, suc, ◌+◌, ◌*◌, String, Bool, true, false, List, [], ◌∷◌, if◌then◌else◌, ◌<>◌, Result, ok,
  err,
}
use k8s_container_service_pr.Base.Exec.{Exec}
use k8s_container_service_pr.Api.Enums.{ContainerStatus}
use k8s_container_service_pr.Monitoring.Debouncer.{StatusEvent}

pub record CloudEventData : Type 0 where
  pub id : String
  pub status : String
  pub message : String

-- cloudEvent of internal/monitoring/event.go
pub record CloudEvent : Type 0 where
  pub spec_version : String
  pub id : String
  pub source : String
  pub type_ : String
  pub subject : String
  pub time : String
  pub data_content_type : String
  pub payload : CloudEventData

-- NewStatusCloudEvent before json.Marshal; the identifier and the time are the runtime's.
unfoldable pub new_status_cloud_event :
    String → String → String → ContainerStatus → String → String → String → CloudEvent
new_status_cloud_event subject provider_name instance_id status message uuid time = record {
  spec_version = "1.0";
  id = uuid;
  source = "dcm/providers/" <> provider_name;
  type_ = "dcm.status.container";
  subject = subject;
  time = time;
  data_content_type = "application/json";
  payload = record { id = instance_id; status = status; message = message };
}

abbrev pub max_attempts : ℕ
max_attempts = 5

-- How publishWithRetry ends.
pub data Delivery : Type 0 where
  delivered gave_up cancelled : Delivery

-- The end of the loop, the number of calls of Publish, and the milliseconds of each wait.
pub record Trace : Type 0 where
  pub end : Delivery
  pub attempts : ℕ
  pub waits : List ℕ

abbrev one_more : Trace → Trace
one_more t = record t { attempts = suc t.attempts }

abbrev after_wait : ℕ → Trace → Trace
after_wait ms t = record t { attempts = suc t.attempts; waits = ms ∷ t.waits }

abbrev ended : Delivery → Trace
ended e = record { end = e; attempts = 1; waits = [] }

-- The publisher, and a wait, which answers whether the context was done before the timer.
module _ {W E : Type 0} (publish : StatusEvent → Exec W E (Unit {0}))
    (wait : ℕ → W → Bool × W) where
  -- The attempts from one on, with the number of those after it.
  unfoldable pub publish_from : ℕ → ℕ → StatusEvent → W → Trace × W
  publish_from zero backoff event w = elim (publish event w).0 [
    | ok _ ↦ (ended delivered, (publish event w).1)
    | err e ↦ (ended gave_up, (publish event w).1)
  ]
  publish_from (suc left) backoff event w =
      let w' = (publish event w).1 in
      let rest = publish_from left (backoff * 2) event (wait backoff w').1 in
      elim (publish event w).0 [
        | ok _ ↦ (ended delivered, w')
        | err e ↦
            if (wait backoff w').0
            then (
              record { end = cancelled; attempts = 1; waits = backoff ∷ [] },
              (wait backoff w').1,
            )
            else (after_wait backoff rest.0, rest.1)
      ]

  -- publishWithRetry
  unfoldable pub publish_with_retry : StatusEvent → W → Trace × W
  unfolding publish_from
  publish_with_retry event w = publish_from 4 10 event w
