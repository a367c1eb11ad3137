-- ===== src/Monitoring/Start.antt =====
-- Start of internal/monitoring/monitor.go: the wiring of the informers, and what a run of the monitor
-- starts and stops. The informers and their factory are client-go's: their answers are parameters.
pub mod Laws
use k8s_container_service_pr.Base.{
  ℕ, String, Bool, true, false, Option, none, some, List, [], ◌∷◌, ◌++◌, if◌then◌else◌, ◌<>◌,
  Result, ok, err,
}
use k8s_container_service_pr.Base.Int.{ℤ}
use k8s_container_service_pr.Dcm
use k8s_container_service_pr.Dcm.{LabelLib}
use k8s_container_service_pr.Kube.{Deployment, Pod}
use k8s_container_service_pr.Monitoring.Debouncer.{Debouncer}
use k8s_container_service_pr.Monitoring.Monitor.{
  Object, DeletedObject, handle_deploy_event, handle_deploy_delete, handle_pod_event,
  handle_pod_delete,
}

-- MonitorConfig of internal/monitoring/config.go, with the resync period in nanoseconds.
pub record MonitorConfig : Type 0 where
  pub namespace : String
  pub provider_name : String
  pub debounce_ms : ℤ
  pub resync_period : ℤ

-- What an informer tells its handlers.
pub data Notification (Q : Type 0) : Type 0 where
  added : Object Q → Notification Q
  updated : (old new : Object Q) → Notification Q
  removed : DeletedObject Q → Notification Q

-- The handlers that Start registers, over the indexers of the two informers.
module _ {Q : Type 0} (pods : String → Option (List Pod))
    (deploys : String → Option (List (Deployment Q))) where
  unfoldable pub on_deployment : Notification Q → Debouncer → Debouncer
  unfolding handle_deploy_event handle_deploy_delete
  on_deployment (added obj) debouncer = handle_deploy_event pods deploys obj debouncer
  on_deployment (updated old new) debouncer = handle_deploy_event pods deploys new debouncer
  on_deployment (removed obj) debouncer = handle_deploy_delete pods deploys obj debouncer

  unfoldable pub on_pod : Notification Q → Debouncer → Debouncer
  unfolding handle_pod_event handle_pod_delete
  on_pod (added obj) debouncer = handle_pod_event pods deploys obj debouncer
  on_pod (updated old new) debouncer = handle_pod_event pods deploys new debouncer
  on_pod (removed obj) debouncer = handle_pod_delete pods deploys obj debouncer

-- The answers of the informers: the errors of AddIndexers and AddEventHandler, the types that
-- WaitForCacheSync answers with whether each is synced, and whether the context is done after it.
pub record Informers : Type 0 where
  pub deploy_indexers : Option String
  pub pod_indexers : Option String
  pub deploy_handlers : Option String
  pub pod_handlers : Option String
  pub synced : List (String × Bool)
  pub context_done : Bool

-- What the informer factory watches.
pub record FactoryOptions : Type 0 where
  pub watched_namespace : String
  pub resync : ℤ
  pub label_selector : String

unfoldable pub factory_options : LabelLib → MonitorConfig → FactoryOptions
factory_options lib cfg = record {
  watched_namespace = cfg.namespace;
  resync = cfg.resync_period;
  label_selector = Dcm.selector lib;
}

-- What a run of the monitor does to the factory and to the debouncer.
pub data Act : Type 0 where
  start_factory : FactoryOptions → Act
  wait_for_context stop_debouncer shut_down_factory : Act

abbrev pub Run : Type 0
Run = Result String (Unit {0}) × List Act

abbrev pub checked : String → Option String → Run → Run
checked prefix none next = next
checked prefix (some e) next = (err (prefix <> e), [])

-- The first type that is not synced.
abbrev pub first_unsynced : List (String × Bool) → Option String
first_unsynced [] = none
first_unsynced ((type_, is_synced) ∷ more) = if is_synced then first_unsynced more else some type_

abbrev sync_failure : Informers → Option String
sync_failure i = if i.context_done then none else first_unsynced i.synced

abbrev waited : Option String → Run
waited none = (ok tt, wait_for_context ∷ [])
waited (some type_) = (err ("cache sync failed for " <> type_), [])

-- What is deferred: the debouncer is stopped first.
abbrev started : FactoryOptions → Run → Run
started options (r, acts) =
    (r, start_factory options ∷ acts ++ stop_debouncer ∷ shut_down_factory ∷ [])

-- Start
unfoldable pub start : LabelLib → MonitorConfig → Informers → Run
unfolding factory_options
start lib cfg i = checked "adding deployment indexer: " i.deploy_indexers (
    checked "adding pod indexer: " i.pod_indexers (
      checked "adding deployment event handler: " i.deploy_handlers (
        checked "adding pod event handler: " i.pod_handlers
          (started (factory_options lib cfg) (waited (sync_failure i))))))
