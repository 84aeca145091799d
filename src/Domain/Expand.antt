-- ===== src/Domain/Expand.antt =====
-- _expand and _bootstrap of sidecar/src/mempalace_tasks/domain.py: work that running work discovers
-- is admitted in one step, and a goal is created with its planning task. `uuid5` is uuid.uuid5 of a
-- namespace and a name.
mod Entries
mod Sources
mod Publish
unfoldable pub use Entries.*
unfoldable pub use Sources.*
unfoldable pub use Publish.*
