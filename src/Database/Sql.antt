-- ===== src/Database/Sql.antt =====
-- The database manager (src/database/database.{h,cpp}): the statements that it makes, with their
-- parameters, and the values that go in and come out.
pub mod Values
pub mod Statements
pub mod Placeholders
pub mod Manager
mod Examples
