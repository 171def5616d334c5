-- ===== src/Server.antt =====
-- The HTTP server of cmd/server/main.go: what its handlers do with a decoded body.
mod Types
mod Handlers
mod Codes
pub mod Seeding
pub mod Totals
pub mod Conserved
pub mod Standing
pub mod Revoking
mod Tests
unfoldable pub use Types.*
unfoldable pub use Handlers.*
unfoldable pub use Codes.*
