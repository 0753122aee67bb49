-- ===== src/Config.antt =====
-- golang/internal/config/config.go: the configured repositories and what is read from the
-- environment.
mod Types
mod Parse
mod Load
pub mod Priority
pub mod Kinds
pub mod Members
pub mod Accepted
mod Examples
unfoldable pub use Types.*
unfoldable pub use Parse.*
unfoldable pub use Load.*
