-- ===== src/Database.antt =====
-- Encrypted databases (src/database).
pub mod Bytes
pub mod Wrap
pub mod Device
pub mod MasterKey
pub mod Encrypted
pub mod Sql
mod Examples
