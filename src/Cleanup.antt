-- ===== src/Cleanup.antt =====
-- golang/internal/cleanup: Plan, which names the files to delete, and Execute, which deletes them.
mod Plan
mod Execute
unfoldable pub use Plan.*
unfoldable pub use Execute.*
pub mod Victims
pub mod Budget
pub mod Oldest
pub mod Marked
pub mod Planned
pub mod Executed
mod Examples
