-- ===== src/Router.antt =====
-- pkg/router: the ports of the apps, the managed routing table, the route manager and the router.
pub mod Ports
pub mod Managed
pub mod RouteManager
pub mod State
pub mod Packets
pub mod Loops
pub mod Apps
mod Tests
