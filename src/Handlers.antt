-- ===== src/Handlers.antt =====
-- internal/handlers/container with internal/httperror: the API operations over a repository.
pub mod Validation
pub mod Errors
pub mod Handler
