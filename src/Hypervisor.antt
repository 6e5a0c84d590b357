-- ===== src/Hypervisor.antt =====
-- pkg/hypervisor: its users and their sessions.
pub mod Users
pub mod Sessions
mod Tests
