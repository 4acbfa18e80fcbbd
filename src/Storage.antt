-- ===== src/Storage.antt =====
-- src/storage/: the event store over LMDB.
pub mod Heed
pub mod Keys
pub mod Lmdb
pub mod Query
pub mod Memory
mod Tests
