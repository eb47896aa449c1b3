-- ===== src/Data.antt =====
-- rusty-workers/src/db.rs: the client of the database, with the tables of the database as parameters.
pub mod Table
pub mod Kv
pub mod Call
pub mod Routes
pub mod Apps
