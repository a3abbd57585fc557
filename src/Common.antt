-- ===== src/Common.antt =====
-- The containers of include/voxen/common.
pub mod V8gFlatMap
pub mod V8gHashTrie
pub mod Uid
