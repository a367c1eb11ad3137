-- ===== src/Monitoring.antt =====
-- internal/monitoring: from changes of Kubernetes objects to status events.
pub mod Reconcile
pub mod Debouncer
pub mod Monitor
pub mod Start
pub mod Publish
pub mod Nats
