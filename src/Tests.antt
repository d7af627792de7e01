-- ===== src/Tests.antt =====
-- The theorems of the library at concrete inputs.
pub mod Pool
pub mod Txns
pub mod Index
pub mod Records
pub mod Logs
