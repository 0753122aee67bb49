-- ===== src/Snapshot.antt =====
-- golang/internal/snapshot: a catalog captured as a document, and restored from it.
mod Document
unfoldable pub use Document.*
pub mod Offered
pub mod Restored
mod Examples
