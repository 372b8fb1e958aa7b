-- ===== src/Database.antt =====
-- src/database: the agent's store, from DatabaseProxy over DatabaseManager and Storage down to the
-- driver of RocksDB. What RocksDB itself does is a parameter, with the laws of `Database.Contract`.
pub mod RocksDb
pub mod Storage
pub mod Manager
pub mod Proxy
pub mod Contract
pub mod Batches
