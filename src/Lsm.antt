-- ===== src/Lsm.antt =====
-- The LSM tree under lsm/.
pub mod Bloom
pub mod Value
pub mod Merge
pub mod SkipList
pub mod Table
pub mod Engine
mod Tests
