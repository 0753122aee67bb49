-- ===== src/Resolver.antt =====
-- golang/internal/resolver/resolver.go: routes resolved against the catalog and the storage, and
-- the catalog reconciled with the storage.
pub mod Keeps
pub mod Closure
pub mod Gives
pub mod Found
pub mod Answers
pub mod Routed
pub mod Hits
pub mod Relocated
pub mod Searches
pub mod Sound
pub mod Serving
pub mod Moving
pub mod Booted
mod Examples
mod Actions
mod Persist
mod Missing
mod Route
mod Relocation
unfoldable pub use Actions.*
unfoldable pub use Persist.*
unfoldable pub use Missing.*
unfoldable pub use Route.*
unfoldable pub use Relocation.*
