-- ===== src/Traversal.antt =====
-- chiffondb-core/src/traversal: the query commands.
pub mod PropertyPath
