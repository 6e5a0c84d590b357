-- ===== src/App.antt =====
-- pkg/app: the protocol between an app and its visor.
pub mod Frames
mod Tests
