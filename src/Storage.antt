-- ===== src/Storage.antt =====
-- src/storage: pages, the disk manager and the buffer pool.
pub mod Page
pub mod Disk
pub mod BufferPool
