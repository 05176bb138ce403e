-- ===== src/Utils.antt =====
-- Small services of the framework (src/utils).
pub mod Text
pub mod TextOrder
pub mod OrderedMap
