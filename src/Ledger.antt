-- ===== src/Ledger.antt =====
-- The conserving ledger, internal/ledger/m2_conserving.go. The types and the operations are in
-- private children, passed on here; the modules named for what they prove are beside them.
mod Types
mod Accounts
mod Holds
mod Offline
mod Deficit
mod Audit
pub mod Requests
pub mod Funds
pub mod Creation
pub mod Frame
pub mod Gaps
pub mod Locks
pub mod Journal
pub mod Numbering
pub mod Settling
pub mod Conservation
pub mod Exact
pub mod Solvency
pub mod NoOverdraft
pub mod Reserved
pub mod Interleaving
mod Tests
unfoldable pub use Types.*
unfoldable pub use Accounts.*
unfoldable pub use Holds.*
unfoldable pub use Offline.*
unfoldable pub use Deficit.*
unfoldable pub use Audit.*
