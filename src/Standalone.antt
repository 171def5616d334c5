-- ===== src/Standalone.antt =====
-- The single-file program fs2601_all_in_one.go, which has a ledger, a filter, a screening, a log, a
-- reconciler and a gateway of its own.
mod Answers
mod Accounts
mod Transfers
mod Filter
mod Codes
mod Screening
mod Wal
mod Replay
mod Paying
mod Handlers
pub mod Ordering
pub mod Payable
pub mod Existing
pub mod Replaying
pub mod Reconnecting
pub mod Balanced
pub mod Total
mod Tests
mod PartTests
pub mod Negative
pub mod Generated
pub mod Unrecorded
pub mod Velocity
pub mod Answered
mod Moves
pub mod Conserved
pub mod Soundness
unfoldable pub use Answers.*
unfoldable pub use Accounts.*
unfoldable pub use Transfers.*
unfoldable pub use Filter.*
unfoldable pub use Codes.*
unfoldable pub use Screening.*
unfoldable pub use Wal.*
unfoldable pub use Replay.*
unfoldable pub use Paying.*
unfoldable pub use Handlers.*
