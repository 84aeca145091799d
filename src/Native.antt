-- ===== src/Native.antt =====
-- sidecar/src/mempalace_tasks/native.py: cooperative native sessions.
pub mod Attempts
pub mod Actions
pub mod Sessions
