-- ===== src/Util.antt =====
-- include/voxen/util.
pub mod LruVisitOrdering
