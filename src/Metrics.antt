-- ===== src/Metrics.antt =====
-- golang/internal/metricsapi: what the gauges show.
mod Updating
unfoldable pub use Updating.*
pub mod Counted
mod Examples
