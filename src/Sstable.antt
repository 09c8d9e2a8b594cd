-- ===== src/Sstable.antt =====
-- src/sstable: the blocks of a table, and tables.
pub mod Block
pub mod Table
