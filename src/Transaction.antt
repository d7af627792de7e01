-- ===== src/Transaction.antt =====
-- src/transaction: locks, versions and the transactions that use them.
pub mod Types
pub mod Lock
pub mod VersionChain
pub mod Mvcc
