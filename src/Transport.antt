-- ===== src/Transport.antt =====
-- pkg/transport: entries and their signatures, the transport discovery, the settlement handshake,
-- managed transports and their manager.
pub mod Entry
pub mod Discovery
pub mod Handshake
pub mod Managed
pub mod Manager
mod Tests
