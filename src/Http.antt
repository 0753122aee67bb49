-- ===== src/Http.antt =====
-- golang/internal/httpapi: which requests are let in, which keys are accepted, and the handlers over
-- the resolver and the catalog.
mod Validation
mod Access
mod Answers
mod Handlers
mod Server
unfoldable pub use Validation.*
unfoldable pub use Access.*
unfoldable pub use Answers.*
unfoldable pub use Handlers.*
unfoldable pub use Server.*
pub mod Keys
pub mod Refused
pub mod Gate
pub mod Downloads
pub mod Served
pub mod Steady
pub mod Life
pub mod Idle
mod Examples
