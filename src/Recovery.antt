-- ===== src/Recovery.antt =====
-- src/recovery: the write-ahead log.
pub mod LogRecord
pub mod Serialize
pub mod Parts
pub mod Agreement
pub mod Lengths
pub mod RoundTrip
