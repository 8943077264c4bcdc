-- ===== src/Tests/Files.antt =====
-- storage/file.rs: a header, and the memory backend of a new database.
use chiffondb.Prelude.{ℕ, ◌*◌, ◌<◌, ◌≡◌, refl, List, length, replicate, length-replicate, ok, arith}
use chiffondb.Storage.Page.{page_size}
use chiffondb.Storage.Header
use chiffondb.Storage.Header.{FileHeader, IsFileHeader}
use chiffondb.Storage.Header.Layout.{deserialize-serialize_header, length-serialize}
use chiffondb.Storage.File.{DatabaseFile, create_in_memory, memory_backend, append_page, read_page}
use chiffondb.Storage.File.Memory.{append_page_effect}

-- The header of a database with three node pages and one edge page.
abbrev header : FileHeader
header = record (Header.new) {
  label_index_root = 9;
  node_page_count = 3;
  edge_page_count = 1;
  node_dir_root = 1;
  edge_dir_root = 4;
  property_free_list_head = 2;
}

header-IsFileHeader : IsFileHeader header
unfolding Header.new
header-IsFileHeader = record {
  version_fits = omega arith;
  label_index_root_fits = omega arith;
  property_index_root_fits = omega arith;
  schema_root_fits = omega arith;
  schema_version_fits = omega arith;
  node_page_count_fits = omega arith;
  edge_page_count_fits = omega arith;
  property_dir_root_fits = omega arith;
  property_dir_len_fits = omega arith;
  node_dir_root_fits = omega arith;
  edge_dir_root_fits = omega arith;
  node_first_free_page_fits = omega arith;
  edge_first_free_page_fits = omega arith;
  property_first_free_page_fits = omega arith;
  property_free_list_head_fits = omega arith;
}

header_example : Header.deserialize (Header.serialize header) ≡ ok header
unfolding Header.new
header_example = deserialize-serialize_header header header-IsFileHeader refl

abbrev page : List ℕ
page = replicate 4096 7

append_example :
    (file' : DatabaseFile (List ℕ)) × (append_page memory_backend create_in_memory page
      ≡ ok (1, file'))
    × (read_page memory_backend file' 1 ≡ ok page)
    × ((other : ℕ)
        → other < 1
        → read_page memory_backend file' other ≡ read_page memory_backend create_in_memory other)
    × (length file'.backend ≡ file'.logical_page_count * page_size)
unfolding create_in_memory
append_example =
    append_page_effect create_in_memory page (length-serialize Header.new) (length-replicate 4096 7)
      (omega arith)
