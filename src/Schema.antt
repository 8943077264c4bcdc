-- ===== src/Schema.antt =====
-- chiffondb-core/src/schema: the schema language's data, and the checks of a schema, of a value and
-- of a migration.
pub mod Ast
pub mod Names
pub mod Validator
pub mod Migration
pub mod Values
pub mod Registry
pub mod Convert
