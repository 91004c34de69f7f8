-- ===== src/Config.antt =====
-- internal/config/config.go.
mod Types
pub mod Defaults
pub mod Validate
pub mod Values
pub mod Loading
pub mod Accepted
pub mod Settings
pub mod Overrides
pub mod Precedence
pub mod Decimal
pub mod Servers
mod Examples
pub use Types.*
