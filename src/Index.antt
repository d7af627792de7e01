-- ===== src/Index.antt =====
-- src/index: the B+ tree.
pub mod Order
pub mod Keys
pub mod Header
pub mod Node
pub mod Tree
