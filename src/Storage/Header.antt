-- ===== src/Storage/Header.antt =====
-- chiffondb-core/src/storage/file.rs, `FileHeader`: page 0 of a database file.
pub mod Layout
use chiffondb.Prelude.{
  ℕ, Bool, true, false, List, [], ◌∷◌, replicate, Result, ok, err, schema_error,
  unsupported_version, ◌==◌, not, if◌then◌else◌, String,
}
use chiffondb.Bytes.Slices.{slice}
use chiffondb.Bytes.Words.{IsU32, le_bytes_u32, from_le_bytes}
use chiffondb.Bytes.Layout.{Field, write_fields}
use chiffondb.Storage.Ids.{bytes_eq}
use chiffondb.Storage.Page.{page_size}

-- `b"CHIFFON\0"`
unfoldable pub magic : List ℕ
magic = 67 ∷ 72 ∷ 73 ∷ 70 ∷ 70 ∷ 79 ∷ 78 ∷ 0 ∷ []

-- `VERSION`
abbrev pub format_version : ℕ
format_version = 10

abbrev pub no_dir_root : ℕ
no_dir_root = 4294967295

abbrev pub no_free_page : ℕ
no_free_page = 4294967295

pub record FileHeader : Type 0 where
  pub version : ℕ
  pub label_index_root : ℕ
  pub property_index_root : ℕ
  pub schema_root : ℕ
  pub schema_version : ℕ
  pub node_page_count : ℕ
  pub edge_page_count : ℕ
  pub property_dir_root : ℕ
  pub property_dir_len : ℕ
  pub node_dir_root : ℕ
  pub edge_dir_root : ℕ
  pub node_first_free_page : ℕ
  pub edge_first_free_page : ℕ
  pub property_first_free_page : ℕ
  pub property_free_list_head : ℕ

-- Every field in the range of its Rust type.
pub record IsFileHeader (h : FileHeader) : Type 0 where
  pub version_fits : IsU32 h.version
  pub label_index_root_fits : IsU32 h.label_index_root
  pub property_index_root_fits : IsU32 h.property_index_root
  pub schema_root_fits : IsU32 h.schema_root
  pub schema_version_fits : IsU32 h.schema_version
  pub node_page_count_fits : IsU32 h.node_page_count
  pub edge_page_count_fits : IsU32 h.edge_page_count
  pub property_dir_root_fits : IsU32 h.property_dir_root
  pub property_dir_len_fits : IsU32 h.property_dir_len
  pub node_dir_root_fits : IsU32 h.node_dir_root
  pub edge_dir_root_fits : IsU32 h.edge_dir_root
  pub node_first_free_page_fits : IsU32 h.node_first_free_page
  pub edge_first_free_page_fits : IsU32 h.edge_first_free_page
  pub property_first_free_page_fits : IsU32 h.property_first_free_page
  pub property_free_list_head_fits : IsU32 h.property_free_list_head

unfoldable pub new : FileHeader
new = record {
  version = format_version;
  label_index_root = no_dir_root;
  property_index_root = no_dir_root;
  schema_root = 0;
  schema_version = 0;
  node_page_count = 0;
  edge_page_count = 0;
  property_dir_root = no_dir_root;
  property_dir_len = 0;
  node_dir_root = no_dir_root;
  edge_dir_root = no_dir_root;
  node_first_free_page = 0;
  edge_first_free_page = 0;
  property_first_free_page = 0;
  property_free_list_head = no_free_page;
}

-- Bytes 24 to 31 and those from 80 on stay 0.
abbrev pub header_fields : FileHeader → List Field
unfolding magic
header_fields h =
    (0, magic)
    ∷ (8, le_bytes_u32 h.version)
    ∷ (12, le_bytes_u32 page_size)
    ∷ (16, le_bytes_u32 h.label_index_root)
    ∷ (20, le_bytes_u32 h.property_index_root)
    ∷ (32, le_bytes_u32 h.schema_root)
    ∷ (36, le_bytes_u32 h.schema_version)
    ∷ (40, le_bytes_u32 h.node_page_count)
    ∷ (44, le_bytes_u32 h.edge_page_count)
    ∷ (48, le_bytes_u32 h.property_dir_root)
    ∷ (52, le_bytes_u32 h.property_dir_len)
    ∷ (56, le_bytes_u32 h.node_dir_root)
    ∷ (60, le_bytes_u32 h.edge_dir_root)
    ∷ (64, le_bytes_u32 h.node_first_free_page)
    ∷ (68, le_bytes_u32 h.edge_first_free_page)
    ∷ (72, le_bytes_u32 h.property_first_free_page)
    ∷ (76, le_bytes_u32 h.property_free_list_head)
    ∷ []

unfoldable pub serialize : FileHeader → List ℕ
serialize h = write_fields (header_fields h) (replicate page_size 0)

-- The little-endian word at an offset.
abbrev pub word : List ℕ → ℕ → ℕ
word buf off = from_le_bytes (slice off 4 buf)

unfoldable pub deserialize : List ℕ → Result FileHeader
deserialize buf =
    if not (bytes_eq (slice 0 8 buf) magic)
    then err (schema_error "invalid magic number")
    else if not (word buf 8 == format_version)
    then err (unsupported_version (word buf 8) format_version)
    else ok (record {
      version = word buf 8;
      label_index_root = word buf 16;
      property_index_root = word buf 20;
      schema_root = word buf 32;
      schema_version = word buf 36;
      node_page_count = word buf 40;
      edge_page_count = word buf 44;
      property_dir_root = word buf 48;
      property_dir_len = word buf 52;
      node_dir_root = word buf 56;
      edge_dir_root = word buf 60;
      node_first_free_page = word buf 64;
      edge_first_free_page = word buf 68;
      property_first_free_page = word buf 72;
      property_free_list_head = word buf 76;
    })
