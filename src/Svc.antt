-- ===== src/Svc.antt =====
-- The services of src/voxen/svc.
pub mod AsyncCounterTracker
pub mod ServiceLocator
pub mod TaskQueueSet
