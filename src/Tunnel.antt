-- ===== src/Tunnel.antt =====
-- src/tunnel.rs: the tunnel handle.
pub mod Retirement
pub mod Generations
pub mod Endpoints
pub mod Connect
pub mod Hint
mod Tests
