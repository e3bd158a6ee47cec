-- ===== src/Index.antt =====
-- index: a B*+ tree in the pages of a file, and the adapter of storage for it.
pub mod Scalar
pub mod Key
pub mod Order
pub mod Disk
pub mod Entries
pub mod Node
pub mod Tree
pub mod Adapter
mod Tests
