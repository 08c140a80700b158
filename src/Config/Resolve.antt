-- ===== src/Config/Resolve.antt =====
-- internal/config/resolve.go and password.go, and what is proved of them.
mod Defs
pub mod Precedence
pub mod Errors
unfoldable pub use Defs.*
