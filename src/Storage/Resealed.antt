-- ===== src/Storage/Resealed.antt =====
-- Files that are resealed with a key read as they did.
pub mod OneLine
pub mod Whole
pub mod Everything
