-- ===== src/Dns.antt =====
-- src/dns.rs: the resolver.
pub mod Wire
pub mod Reply
pub mod Cache
pub mod Merge
pub mod Exchange
pub mod Flight
pub mod Query
mod Tests
