-- ===== src/Catalog.antt =====
-- golang/internal/catalog/catalog.go: the in-memory file registry. The RWMutex makes each method
-- one atomic step, which is a function here. The ranks of a PriorityFunc are naturals: the one
-- that the program builds, Config.BucketPriority, returns an index.
mod Update
mod Listing
mod Manifests
unfoldable pub use Update.*
unfoldable pub use Listing.*
unfoldable pub use Manifests.*
pub mod Routes
pub mod Invariant
pub mod Preservation
pub mod Runs
pub mod Owners
pub mod Loading
pub mod Sorted
pub mod Listed
pub mod Agreement
mod Examples
