-- ===== src/Extras.antt =====
-- The generic helpers of include/extras.
pub mod Bitset
pub mod FixedPool
pub mod LinearAllocator
