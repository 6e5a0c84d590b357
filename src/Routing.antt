-- ===== src/Routing.antt =====
-- pkg/routing: addresses and loops, routing rules, packets and the routing table.
pub mod Addr
pub mod Rule
pub mod Packet
pub mod Table
pub mod BoltTable
mod Tests
