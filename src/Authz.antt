-- ===== src/Authz.antt =====
-- golang/internal/authz: roles, grants and service accounts. Lists are values here: the deep copies
-- of the constructors keep a caller from changing them, which a value cannot do.
mod Roles
mod Accounts
unfoldable pub use Roles.*
unfoldable pub use Accounts.*
pub mod Grants
pub mod Allowed
pub mod Superuser
mod Examples
