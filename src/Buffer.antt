-- ===== src/Buffer.antt =====
-- buffer/: the replacement policies of the buffer pool.
pub mod Frames
pub mod LruK
pub mod Lru
pub mod Disk
pub mod Pool
mod PoolTests
mod Tests
