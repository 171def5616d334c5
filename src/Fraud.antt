-- ===== src/Fraud.antt =====
-- The checks of internal/fraud: the cuckoo filter (compact_filter.go), the dynamic QR codes
-- (qr_verifier.go) and the graph of transfers (m3_graph_fraud.go).
mod Filter
mod Encoding
mod Qr
mod Graph
mod Screening
mod Window
pub mod Pruning
pub mod Scoring
pub mod Cycles
mod Slots
pub mod Placing
mod Displacing
mod Keeping
pub mod Membership
pub mod Fresh
pub mod RoundTrip
pub mod Handshake
mod Tests
mod FilterTests
unfoldable pub use Filter.*
unfoldable pub use Encoding.*
unfoldable pub use Qr.*
unfoldable pub use Graph.*
unfoldable pub use Screening.*
