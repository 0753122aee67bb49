-- ===== src/Replication.antt =====
-- golang/internal/replication: Pull, which copies what a remote instance lists. The client of the
-- remote and the local storage are parameters.
mod Puller
unfoldable pub use Puller.*
pub mod Pulled
mod Examples
