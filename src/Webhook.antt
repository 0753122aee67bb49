-- ===== src/Webhook.antt =====
-- golang/internal/webhook: who is told of an event, and how a delivery is retried.
mod Subscribers
mod Dispatch
unfoldable pub use Subscribers.*
unfoldable pub use Dispatch.*
pub mod Told
pub mod Delivered
mod Examples
