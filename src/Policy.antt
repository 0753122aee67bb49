-- ===== src/Policy.antt =====
-- golang/internal/policy over the results of golang/internal/scan and golang/internal/license: one
-- decision for an artifact, waivers and the audit log.
mod Findings
mod Rules
mod Waivers
mod Audit
unfoldable pub use Findings.*
unfoldable pub use Rules.*
unfoldable pub use Waivers.*
unfoldable pub use Audit.*
pub mod Worst
pub mod Votes
pub mod Evaluated
pub mod Recorded
pub mod Scanned
mod Examples
