-- ===== src/Config/Merge.antt =====
-- Merging: external settings laid over internal ones.
pub mod Map
