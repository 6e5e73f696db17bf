-- ===== src/Authz.antt =====
-- internal/authz and internal/services/authz_service.go.
pub mod Wildcard
pub mod Value
pub mod Conditions
pub mod Evaluator
pub mod Service
mod Tests
