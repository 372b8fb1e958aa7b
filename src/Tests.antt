-- ===== src/Tests.antt =====
-- Runs of the agent at concrete inputs, at which the theorems apply.
pub mod Network
pub mod Text
pub mod Requests
pub mod Transfers
pub mod Loops
pub mod Restart
pub mod Utilities
pub mod Store
pub mod Loading
pub mod Sockets
