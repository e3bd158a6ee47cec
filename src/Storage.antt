-- ===== src/Storage.antt =====
-- The storage library: values, the string pool, schemas and tables.
pub mod Datum
pub mod Pool
pub mod Value
pub mod Dbms
pub mod Schema
pub mod Table
pub mod Tests
