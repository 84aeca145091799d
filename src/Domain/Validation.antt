-- ===== src/Domain/Validation.antt =====
-- validate_state of sidecar/src/mempalace_tasks/domain.py on managed tasks: what a serialized state
-- must satisfy.
pub mod Attempts
pub mod Tasks
pub mod Links
pub mod Acceptance
