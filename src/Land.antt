-- ===== src/Land.antt =====
-- The world storage of src/voxen/land.
pub mod ChunkStorage
