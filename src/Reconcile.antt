-- ===== src/Reconcile.antt =====
-- The reconciler of internal/reconcile/m6_engine.go, which replays the transactions of the edge's log
-- onto the ledger after a network partition.
mod Clocks
mod Reports
mod Engine
pub mod Ends
pub mod Transfers
pub mod Settling
pub mod Counting
pub mod Repeating
pub mod Returning
pub mod Ordering
mod Within
pub mod Solvent
mod Tests
unfoldable pub use Clocks.*
unfoldable pub use Reports.*
unfoldable pub use Engine.*
