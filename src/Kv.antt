-- ===== src/Kv.antt =====
-- The key-value database of project-4. Each layer takes the one below as an interface.
pub mod Log
pub mod Device
pub mod Logfs
pub mod Meta
pub mod Raw
pub mod Db
pub mod Stack
