-- ===== src/Storage.antt =====
-- The disk cache and the mount table.
pub mod Cache
pub mod Mount
pub mod Ram
