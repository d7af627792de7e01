-- ===== src/Storage/BufferPool.antt =====
-- src/storage/buffer_pool_manager.h and buffer_pool_manager.cpp. The latch is held for the whole
-- of each call.
pub mod Defs
pub mod Moves
pub mod Update
pub mod Content
pub mod Load
pub mod Fetch
pub mod Fresh
pub mod Delete
pub mod Calls
pub mod History
pub mod Invariant
pub use Defs.{BufferPool, Reply, ok, io_error}
