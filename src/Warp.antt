-- ===== src/Warp.antt =====
-- src/warp: the identities, the account file on disk, and the account manager.
pub mod IdentityPool
pub mod Persistence
pub mod Account
mod Tests
