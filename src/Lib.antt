-- ===== src/Lib.antt =====
-- chiffondb, an embedded graph database in Rust: a model of its storage engine's page formats, its
-- values, its write-ahead log, its lists of edges and its path search, and of its schema checks, with
-- the theorems that make them correct.
--
-- The program. A database is a file of 4096-byte pages. Node and edge records of a fixed size stand
-- in pages of slots behind a bitmap (`Page`). Properties are byte strings in slotted pages
-- (`SlottedPage`) or, where they are larger than a page, in chains of pages. Every changed page goes
-- to a write-ahead log first (`WalFile`), and a checkpoint copies the log's pages to the file. A node
-- record holds the first of its outgoing and of its incoming edges, and an edge record the next one of
-- each list (`TopologyStore`).
--
-- The files, each with the code it models (under chiffondb-core/src):
--   Prelude        names, tests, lists, and `Result` with the errors of error.rs and panics
--   Bytes          slices and patches of byte lists, little-endian words, records of fields
--   Storage/Ids    RecordId of storage/page.rs and its encodings of storage/record.rs
--   Storage/Record NodeRecord and EdgeRecord of storage/record.rs
--   Storage/Page   Page of storage/page.rs
--   Storage/Slotted  SlottedPage of storage/property.rs
--   Storage/Blob   write_blob_chain and read_blob_chain of storage/property.rs
--   Storage/Wal    WalFile of storage/wal.rs
--   Storage/Directory  PageDirectory of storage/page_directory.rs, over an interface of the file
--   Storage/Topology  TopologyStore of storage/topology.rs, over an interface of the file
--   Storage/Header  FileHeader of storage/file.rs
--   Storage/File   DatabaseFile and the memory backend of storage/file.rs; the file backend is an
--                  interface. File/Sound is the invariant of its pages of nodes and edges, and
--                  File/Topology is about the contract of Storage/Topology
--   Schema/Ast     the parsed schema of schema/ast.rs
--   Schema/Names   sets and maps of names
--   Schema/Validator, Schema/Values, Schema/Migration, Schema/Registry,
--   Schema/Convert validator.rs, validate_value.rs, migration.rs, registry.rs and convert.rs of schema/
--   Traversal/PropertyPath  PropertyPath of traversal/command.rs
--   Pathfinding    pathfinding/mod.rs
--   Tests          runs on concrete inputs
--
-- How the code is read. Bytes are native numbers, a page or a file is the list of its bytes, and a
-- method that changes `self` returns the new state. Integers keep their width where the code writes
-- it (`% 65536` and `% 4294967296`, little-endian words). A slice or an index out of range is
-- `panic`. A `HashMap` is an association list with distinct keys. A panic in the middle of a method
-- drops the state, so what a caller that catches it would see is not modelled; so does an error, of
-- which the code's caller rolls the transaction back.
--
-- Bounds. The loops over slots and directory entries run over a count. `read_blob_chain` counts its
-- steps itself, up to the number of pages. `load_index` reads until an entry fails; its model takes
-- at most one round more than the file has bytes, and an entry takes 4104 of them. The walks over a
-- list of edges have no bound in the code: their models take fuel, and give `none` where it is used up.
-- So does the search for a path, which visits no node twice: its fuel is one step for each node that
-- there is, and two more.
--
-- Not modelled: the files of the operating system beyond their bytes (no faults, no fsync), the page
-- cache and the file backend over it, the store of property values above its pages, the parser of the
-- schema, the indexes, the database facade, the query languages, the command line and the bindings.
pub mod Prelude
pub mod Bytes
pub mod Storage
pub mod Schema
pub mod Traversal
pub mod Pathfinding
pub mod Tests
