-- ===== src/Tree.antt =====
-- containers/rbtree: the tree of nodes in one block of bytes, which hold each other's offsets.
pub mod Host
pub mod Node
pub mod Codec
pub mod Shape
pub mod Get
pub mod Rotate
pub mod Frame
pub mod Order
pub mod Insert
pub mod Iterator
pub mod Plain
pub mod Tests
