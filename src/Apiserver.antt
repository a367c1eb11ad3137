-- ===== src/Apiserver.antt =====
-- internal/apiserver/server.go: the HTTP server's middleware, readiness probe and life cycle.
pub mod Scrub
pub mod Recovery
pub mod Router
pub mod Lifecycle
