-- ===== src/Common.antt =====
-- The names that the other modules share: the libraries', passed on, and those of the children.
mod Names
mod Tests
mod Lists
pub mod Int
pub mod Bits
pub mod SortedMap
pub mod Chunks
pub mod Ranges
pub mod Bytes
pub use Names.*
pub use Tests.*
pub use Lists.*
