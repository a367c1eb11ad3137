-- ===== src/Monitoring/Nats.antt =====
-- NATSPublisher of internal/monitoring/publisher.go. The connection, identifiers, the clock and the JSON
-- encoding are libraries'.
pub mod Once
use k8s_container_service_pr.Base.{String, Option, none, some, ◌<>◌, Result, ok, err}
use k8s_container_service_pr.Base.Exec.{Exec, pure}
use k8s_container_service_pr.Monitoring.Debouncer.{StatusEvent}
use k8s_container_service_pr.Monitoring.Publish.{CloudEvent, new_status_cloud_event}

pub record NatsPublisher : Type 0 where
  pub provider_name : String
  pub subject : String

-- uuid.NewString, the formatted time.Now, json.Marshal, and Publish and Close of a connection.
pub record Libraries (W : Type 0) : Type 0 where
  pub new_uuid : W → String × W
  pub now : W → String × W
  pub marshal : CloudEvent → Result String String
  pub conn_publish : String → String → Exec W String (Unit {0})
  pub conn_close : W → W

-- NewNATSPublisher, on the error of nats.Connect.
unfoldable pub new_nats_publisher :
    (String → Option String) → String → String → Result String NatsPublisher
new_nats_publisher connect nats_url provider_name = elim (connect nats_url) [
  | some e ↦ err ("connecting to NATS at " <> (nats_url <> (": " <> e)))
  | none ↦ ok (record { provider_name = provider_name; subject = "dcm.container" })
]

module _ {W : Type 0} (lib : Libraries W) where
  -- The event of a publication, with an identifier and a time of its own.
  unfoldable pub event_data : NatsPublisher → StatusEvent → String → String → Result String String
  unfolding new_status_cloud_event
  event_data p event uuid time = lib.marshal (
      new_status_cloud_event p.subject p.provider_name event.instance_id event.status event.message
        uuid time)

  abbrev pub send : NatsPublisher → Result String String → Exec W String (Unit {0})
  send p (err e) w = (err ("constructing cloud event: " <> e), w)
  send p (ok body) w = lib.conn_publish p.subject body w

  -- Publish
  unfoldable pub publish : NatsPublisher → StatusEvent → Exec W String (Unit {0})
  unfolding event_data
  publish p event w =
      let (uuid, v) = lib.new_uuid w in
      let (time, u) = lib.now v in send p (event_data p event uuid time) u

  -- Close
  unfoldable pub close : NatsPublisher → Exec W String (Unit {0})
  close p w = (ok tt, lib.conn_close w)
