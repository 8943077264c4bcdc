-- ===== src/Storage/File.antt =====
-- chiffondb-core/src/storage/file.rs: `DatabaseFile` over a storage backend, with the pages of
-- properties, nodes and edges that its directories map. A backend's file, log and cache are the
-- interface `Backend`; the memory backend is an instance of it.
pub mod Memory
pub mod FreeList
pub mod Sound
pub mod Topology
use chiffondb.Prelude.{
  ℕ, ◌+◌, ◌*◌, ◌%◌, min, Bool, true, false, Option, none, some, List, [], ◌++◌, length, replicate,
  Result, ok, err, panic, storage_corrupted, ltb, ◌==◌, not, if◌then◌else◌, ◌>>=◌,
}
use chiffondb.Bytes.Slices.{slice, patch}
use chiffondb.Bytes.Words.{le_bytes_u16, le_bytes_u32, from_le_bytes}
use chiffondb.Storage.Page.{page_size}
use chiffondb.Storage.Slotted.{free_page_marker}
use chiffondb.Storage.Directory
use chiffondb.Storage.Directory.{PageFile, PageDirectory, unmapped, resolve, push}
use chiffondb.Storage.Topology.{TopologyFile, TopologyKind, node_kind, edge_kind}
use chiffondb.Storage.Header
use chiffondb.Storage.Header.{FileHeader, no_dir_root, no_free_page}

-- `StorageBackend`. `append_page` takes the page count, which is the new page's number.
pub record Backend (B : Type 0) : Type 0 where
  pub backend_read : B → ℕ → Result (List ℕ)
  pub backend_write : B → ℕ → List ℕ → Result B
  pub backend_append : B → List ℕ → ℕ → Result B

pub record DatabaseFile (B : Type 0) : Type 0 where
  pub backend : B
  pub header : FileHeader
  pub logical_page_count : ℕ

-- `StorageBackend::Memory`; its state is the bytes of all pages. `copy_from_slice` panics where the
-- lengths differ.
unfoldable pub memory_read : List ℕ → ℕ → Result (List ℕ)
memory_read bytes page_id =
    if ltb (length bytes) (page_id * page_size + page_size)
    then err (storage_corrupted page_id)
    else ok (slice (page_id * page_size) page_size bytes)

unfoldable pub memory_write : List ℕ → ℕ → List ℕ → Result (List ℕ)
memory_write bytes page_id page =
    if ltb (length bytes) (page_id * page_size + page_size)
    then err (storage_corrupted page_id)
    else if not (length page == page_size)
    then panic
    else ok (patch (page_id * page_size) page bytes)

unfoldable pub memory_append : List ℕ → List ℕ → ℕ → Result (List ℕ)
memory_append bytes page count = ok (bytes ++ page)

abbrev pub memory_backend : Backend (List ℕ)
memory_backend = record {
  backend_read = memory_read;
  backend_write = memory_write;
  backend_append = memory_append;
}

unfoldable pub create_in_memory : DatabaseFile (List ℕ)
create_in_memory = record {
  backend = Header.serialize Header.new;
  header = Header.new;
  logical_page_count = 1;
}

-- `PageDirectory::new` where there is no root, and `PageDirectory::with_root`.
abbrev pub dir_of : ℕ → ℕ → PageDirectory
dir_of root len =
    if root == no_dir_root
    then record { root = unmapped; len = 0 }
    else record { root = root; len = len }

-- `.ok_or(StorageCorrupted)`
unfoldable pub found_or_corrupted : ℕ → Option ℕ → Result ℕ
found_or_corrupted logical none = err (storage_corrupted (logical % 4294967296))
found_or_corrupted logical (some physical) = ok physical

-- A freed page: the marker, and the number of the next free page.
unfoldable pub free_page : ℕ → List ℕ
free_page prev_head =
    patch 4 (le_bytes_u32 prev_head)
      (patch 0 (le_bytes_u16 free_page_marker) (replicate page_size 0))

abbrev pub with_free_list_head : {B : Type 0} → ℕ → DatabaseFile B → DatabaseFile B
with_free_list_head head file = record file {
  header = record (file.header) { property_free_list_head = head };
}

-- `logical_page_count += 1` on a `u32`, which panics past its range in a build with overflow checks.
unfoldable pub next_page_count : ℕ → Result ℕ
next_page_count count = if ltb (count + 1) 4294967296 then ok (count + 1) else panic

module _ {B : Type 0} (ops : Backend B) where
  unfoldable pub read_page : DatabaseFile B → ℕ → Result (List ℕ)
  read_page file page_id = ops.backend_read file.backend page_id

  unfoldable pub write_page : DatabaseFile B → ℕ → List ℕ → Result (DatabaseFile B)
  write_page file page_id page = do
    backend ← ops.backend_write file.backend page_id page
    ok (record file { backend = backend })

  unfoldable pub append_page : DatabaseFile B → List ℕ → Result (ℕ × DatabaseFile B)
  append_page file page = do
    backend ← ops.backend_append file.backend page file.logical_page_count
    count ← next_page_count file.logical_page_count
    ok (file.logical_page_count, record file { backend = backend; logical_page_count = count })

  -- What a directory uses of the file.
  abbrev pub page_file : PageFile (DatabaseFile B)
  page_file = record { read_page = read_page; write_page = write_page; append_page = append_page }

  unfoldable pub write_header : DatabaseFile B → Result (DatabaseFile B)
  write_header file = write_page file 0 (Header.serialize file.header)

  unfoldable pub property_dir : DatabaseFile B → PageDirectory
  property_dir file = dir_of file.header.property_dir_root file.header.property_dir_len

  unfoldable pub store_property_dir : PageDirectory → DatabaseFile B → Result (DatabaseFile B)
  store_property_dir dir file = write_header (record file {
    header = record (file.header) {
      property_dir_root = dir.root;
      property_dir_len = dir.len % 4294967296;
    };
  })

  unfoldable pub property_page_count : DatabaseFile B → ℕ
  property_page_count file = file.header.property_dir_len

  unfoldable pub property_first_free_hint : DatabaseFile B → ℕ
  property_first_free_hint file =
      min file.header.property_first_free_page file.header.property_dir_len

  unfoldable pub set_property_first_free_hint : ℕ → DatabaseFile B → Result (DatabaseFile B)
  set_property_first_free_hint hint file = write_header (record file {
    header = record (file.header) { property_first_free_page = hint % 4294967296 };
  })

  unfoldable pub resolve_property_page : DatabaseFile B → ℕ → Result ℕ
  resolve_property_page file logical = do
    found ← resolve page_file (property_dir file) file logical
    found_or_corrupted logical found

  unfoldable pub write_property_page : ℕ → List ℕ → DatabaseFile B → Result (DatabaseFile B)
  write_property_page logical page file = do
    physical ← resolve_property_page file logical
    write_page file physical page

  unfoldable pub read_property_page : DatabaseFile B → ℕ → Result (List ℕ)
  read_property_page file logical = do
    physical ← resolve_property_page file logical
    read_page file physical

  unfoldable pub property_free_list_head : DatabaseFile B → Option ℕ
  property_free_list_head file =
      if file.header.property_free_list_head == no_free_page
      then none
      else some file.header.property_free_list_head

  unfoldable pub free_property_page : ℕ → DatabaseFile B → Result (DatabaseFile B)
  free_property_page logical file = do
    file' ← write_property_page logical (free_page file.header.property_free_list_head) file
    write_header (with_free_list_head (logical % 4294967296) file')

  unfoldable pub pop_property_free_page : DatabaseFile B → Result (Option ℕ × DatabaseFile B)
  pop_property_free_page file = elim (property_free_list_head file) [
    | none ↦ ok (none, file)
    | some head ↦ do
      page ← read_property_page file head
      elim (from_le_bytes (slice 0 2 page) == free_page_marker) [
        | false ↦ do file' ← write_header (with_free_list_head no_free_page file); ok (none, file')
        | true ↦ do
          file' ← write_header (with_free_list_head (from_le_bytes (slice 4 4 page)) file)
          ok (some head, file')
      ]
  ]

  -- A fresh page at the end of the file, mapped at the end of the directory.
  unfoldable pub append_property_page : List ℕ → DatabaseFile B → Result (ℕ × DatabaseFile B)
  append_property_page page file = do
    (physical, file') ← append_page file page
    (logical, dir, file'') ← push page_file (property_dir file') file' physical
    file''' ← store_property_dir dir file''
    ok (logical, file''')

  unfoldable pub alloc_property_page : List ℕ → DatabaseFile B → Result (ℕ × DatabaseFile B)
  alloc_property_page page file = do
    (popped, file') ← pop_property_free_page file
    elim popped [
      | none ↦ append_property_page page file'
      | some logical ↦ do file'' ← write_property_page logical page file'; ok (logical, file'')
    ]

  unfoldable pub topology_dir : TopologyKind → DatabaseFile B → PageDirectory
  topology_dir node_kind file = dir_of file.header.node_dir_root file.header.node_page_count
  topology_dir edge_kind file = dir_of file.header.edge_dir_root file.header.edge_page_count

  unfoldable pub store_topology_dir :
      TopologyKind → PageDirectory → DatabaseFile B → Result (DatabaseFile B)
  store_topology_dir node_kind dir file = write_header (record file {
    header = record (file.header) {
      node_dir_root = dir.root;
      node_page_count = dir.len % 4294967296;
    };
  })
  store_topology_dir edge_kind dir file = write_header (record file {
    header = record (file.header) {
      edge_dir_root = dir.root;
      edge_page_count = dir.len % 4294967296;
    };
  })

  unfoldable pub topology_page_count : TopologyKind → DatabaseFile B → ℕ
  topology_page_count node_kind file = file.header.node_page_count
  topology_page_count edge_kind file = file.header.edge_page_count

  unfoldable pub topology_first_free_hint : TopologyKind → DatabaseFile B → ℕ
  topology_first_free_hint node_kind file =
      min file.header.node_first_free_page file.header.node_page_count
  topology_first_free_hint edge_kind file =
      min file.header.edge_first_free_page file.header.edge_page_count

  unfoldable pub set_topology_first_free_hint :
      TopologyKind → ℕ → DatabaseFile B → Result (DatabaseFile B)
  set_topology_first_free_hint node_kind hint file =
      write_header
        (record file { header = record (file.header) { node_first_free_page = hint % 4294967296 } })
  set_topology_first_free_hint edge_kind hint file =
      write_header
        (record file { header = record (file.header) { edge_first_free_page = hint % 4294967296 } })

  unfoldable pub resolve_topology_page : TopologyKind → DatabaseFile B → ℕ → Result ℕ
  resolve_topology_page kind file logical = do
    found ← resolve page_file (topology_dir kind file) file logical
    found_or_corrupted logical found

  unfoldable pub alloc_topology_page :
      TopologyKind → List ℕ → DatabaseFile B → Result (ℕ × DatabaseFile B)
  alloc_topology_page kind page file = do
    (physical, file') ← append_page file page
    (logical, dir, file'') ← push page_file (topology_dir kind file') file' physical
    file''' ← store_topology_dir kind dir file''
    ok (logical, file''')

  unfoldable pub write_topology_page :
      TopologyKind → ℕ → List ℕ → DatabaseFile B → Result (DatabaseFile B)
  write_topology_page kind logical page file = do
    physical ← resolve_topology_page kind file logical
    write_page file physical page

  unfoldable pub read_topology_page : TopologyKind → ℕ → DatabaseFile B → Result (List ℕ)
  read_topology_page kind logical file = do
    physical ← resolve_topology_page kind file logical
    read_page file physical

  -- What the topology store uses of the file.
  abbrev pub topology_file : TopologyFile (DatabaseFile B)
  topology_file = record {
    page_count = topology_page_count;
    first_free_hint = topology_first_free_hint;
    set_first_free_hint = set_topology_first_free_hint;
    read_page = read_topology_page;
    write_page = write_topology_page;
    alloc_page = alloc_topology_page;
  }
