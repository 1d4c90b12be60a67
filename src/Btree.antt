-- ===== src/Btree.antt =====
-- src/btree: keys, nodes and their bytes.
pub mod Key
pub mod Node
pub mod Tree
