-- ===== src/Storage/Record.antt =====
-- chiffondb-core/src/storage/record.rs: the 64-byte node and edge records.
pub mod Node
pub mod Edge
