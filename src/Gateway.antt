-- ===== src/Gateway.antt =====
-- The payment gateway of internal/gateway/m1_api.go, which puts the other components together.
mod Types
mod Online
mod Offline
mod Process
pub mod Settlement
pub mod Transfer
pub mod Steps
pub mod Money
pub mod Idempotency
pub mod Partition
pub mod Revocations
mod Tests
unfoldable pub use Types.*
unfoldable pub use Online.*
unfoldable pub use Offline.*
unfoldable pub use Process.*
