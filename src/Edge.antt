-- ===== src/Edge.antt =====
-- The edge of internal/edge: tokens and their authorizer (m4_offline_auth.go), and the write-ahead
-- log of queued transactions (m5_local_store.go).
mod Queue
mod Bytes
mod Wal
mod Token
mod Authorizer
pub mod Granting
pub mod Issuing
pub mod Allowance
pub mod Frames
pub mod Recovery
pub mod Durability
mod Losses
pub mod Appending
mod Opening
pub mod Unreadable
mod Tests
mod TokenTests
unfoldable pub use Queue.*
unfoldable pub use Bytes.*
unfoldable pub use Wal.*
unfoldable pub use Opening.*
unfoldable pub use Token.*
unfoldable pub use Authorizer.*
