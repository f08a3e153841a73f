-- ===== src/Lsm.antt =====
-- scry-lsm/src: the storage engine that uses the index as its memtable.
pub mod Bytes
pub mod Wal
pub mod Sstable
pub mod Manifest
pub mod Files
pub mod Compaction
pub mod Error
pub mod Memtable
pub mod Engine
