-- ===== src/Domain.antt =====
-- The parts of sidecar/src/mempalace_tasks/domain.py.
pub mod Types
pub mod Records
pub mod Commands
pub mod Checks
pub mod Inputs
pub mod Attempts
pub mod Revocation
pub mod Readiness
pub mod Graph
pub mod Completion
pub mod Claim
pub mod Reports
pub mod Recover
pub mod Edits
pub mod Expand
pub mod Equality
pub mod Execute
pub mod Decide
pub mod Replay
pub mod Lifecycle
pub mod Validation
