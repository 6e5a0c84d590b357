-- ===== src/Setup.antt =====
-- pkg/setup: the setup node reserves route IDs at the visors and generates their rules.
pub mod Rules
pub mod Json
pub mod Protocol
pub mod Node
mod Tests
