-- ===== src/Storage.antt =====
-- chiffondb-core/src/storage: records, pages, the write-ahead log.
pub mod Ids
pub mod Record
pub mod Page
pub mod Slotted
pub mod Blob
pub mod Wal
pub mod Directory
pub mod Topology
pub mod Header
pub mod File
