-- ===== src/Glue/Recovery.antt =====
-- A restart: Initialize of both handles fills the empty maps of a new process from the store.
pub mod Scan
pub mod Load
pub mod Restart
pub mod Crash
