-- ===== src/Reporting.antt =====
-- golang/internal/reporting: the reports over the records of artifacts.
mod Reports
unfoldable pub use Reports.*
pub mod Breakdown
mod Examples
