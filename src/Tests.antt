-- ===== src/Tests.antt =====
-- Examples: a store in memory, a platform, and the theorems at concrete inputs.
pub mod Memory
pub mod Mirrors
pub mod Mirroring
pub mod Backups
pub mod Registry
pub mod Levelling
pub mod Listings
pub mod Boxes
pub mod Lookups
pub mod Requests
pub mod Files
