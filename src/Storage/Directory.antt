-- ===== src/Storage/Directory.antt =====
-- chiffondb-core/src/storage/page_directory.rs: logical page numbers, mapped to pages of the file by
-- a chain of directory pages. The database file is the interface `PageFile`; a read of it may move
-- pages in its cache, which no caller sees, so it returns the page alone.
pub mod Entries
pub mod Mapping
pub mod Pushed
pub mod Kept
use chiffondb.Prelude.{
  ℕ, zero, suc, ◌+◌, ◌-◌, ◌*◌, ◌/◌, ◌%◌, Bool, true, false, Option, none, some, List, replicate,
  Result, ok, err, storage_corrupted, ltb, leb, ◌==◌, if◌then◌else◌, ◌>>=◌,
}
use chiffondb.Bytes.Slices.{slice, patch}
use chiffondb.Bytes.Words.{le_bytes_u32, from_le_bytes}
use chiffondb.Storage.Page.{page_size}

abbrev pub unmapped : ℕ
unmapped = 4294967295

abbrev pub link_size : ℕ
link_size = 4

abbrev pub entries_per_dir_page : ℕ
entries_per_dir_page = (page_size - link_size) / 4

-- The operations of `DatabaseFile` that a directory uses.
pub record PageFile (F : Type 0) : Type 0 where
  pub read_page : F → ℕ → Result (List ℕ)
  pub write_page : F → ℕ → List ℕ → Result F
  pub append_page : F → List ℕ → Result (ℕ × F)

pub record PageDirectory : Type 0 where
  pub root : ℕ
  pub len : ℕ

unfoldable pub read_link : List ℕ → ℕ
read_link page = from_le_bytes (slice 0 4 page)

unfoldable pub write_link : List ℕ → ℕ → List ℕ
write_link page pid = patch 0 (le_bytes_u32 pid) page

abbrev pub entry_offset : ℕ → ℕ
entry_offset slot = link_size + slot * 4

-- A slot is below `entries_per_dir_page`, so its four bytes lie in the page.
unfoldable pub read_entry : List ℕ → ℕ → ℕ
read_entry page slot = from_le_bytes (slice (entry_offset slot) 4 page)

unfoldable pub write_entry : List ℕ → ℕ → ℕ → List ℕ
write_entry page slot physical = patch (entry_offset slot) (le_bytes_u32 physical) page

unfoldable pub mapped : ℕ → Option ℕ
mapped physical = if physical == unmapped then none else some physical

-- The loop over the slots of a blank page from `slot` on, with `n` of them left.
unfoldable pub blank_entries : ℕ → ℕ → List ℕ → List ℕ
blank_entries zero slot page = page
blank_entries (suc n) slot page = blank_entries n (slot + 1) (write_entry page slot unmapped)

module _ {F : Type 0} (pages : PageFile F) where
  unfoldable pub append_blank_dir_page : F → Result (ℕ × F)
  append_blank_dir_page file =
      pages.append_page file
        (blank_entries entries_per_dir_page 0 (write_link (replicate page_size 0) unmapped))

  -- The loop of `dir_page_pid`.
  unfoldable pub follow : ℕ → F → ℕ → Result (Option ℕ)
  follow zero file pid = ok (some pid)
  follow (suc n) file pid = do
    page ← pages.read_page file pid
    elim (read_link page == unmapped) [ true ↦ ok none | false ↦ follow n file (read_link page) ]

  unfoldable pub dir_page_pid : PageDirectory → F → ℕ → Result (Option ℕ)
  dir_page_pid dir file dir_index =
      if dir.root == unmapped then ok none else follow dir_index file dir.root

  -- The loop of `ensure_dir_page`.
  unfoldable pub extend : ℕ → F → ℕ → Result (ℕ × F)
  extend zero file pid = ok (pid, file)
  extend (suc n) file pid = do
    page ← pages.read_page file pid
    elim (read_link page == unmapped) [
      | false ↦ extend n file (read_link page)
      | true ↦ do
        (new_pid, file') ← append_blank_dir_page file
        file'' ← pages.write_page file' pid (write_link page new_pid)
        extend n file'' new_pid
    ]

  -- The root, allocated where there is none.
  unfoldable pub ensure_root : PageDirectory → F → Result (PageDirectory × F)
  ensure_root dir file =
      if dir.root == unmapped
      then (do (root, file') ← append_blank_dir_page file; ok (record dir { root = root }, file'))
      else ok (dir, file)

  unfoldable pub ensure_dir_page : PageDirectory → F → ℕ → Result (ℕ × PageDirectory × F)
  ensure_dir_page dir file dir_index = do
    (dir', file') ← ensure_root dir file
    (pid, file'') ← extend dir_index file' dir'.root
    ok (pid, dir', file'')

  unfoldable pub set_entry : PageDirectory → F → ℕ → ℕ → Result (PageDirectory × F)
  set_entry dir file logical physical =
      if ltb dir.len logical then err (storage_corrupted (logical % 4294967296)) else do
        (dir_pid, dir', file') ← ensure_dir_page dir file (logical / entries_per_dir_page)
        page ← pages.read_page file' dir_pid
        file'' ←
            pages.write_page file' dir_pid
              (write_entry page (logical % entries_per_dir_page) physical)
        ok (dir', file'')

  unfoldable pub push : PageDirectory → F → ℕ → Result (ℕ × PageDirectory × F)
  push dir file physical = if physical == unmapped then err (storage_corrupted physical) else do
    (dir', file') ← set_entry dir file dir.len physical
    ok (dir.len, record dir' { len = dir.len + 1 }, file')

  unfoldable pub resolve : PageDirectory → F → ℕ → Result (Option ℕ)
  resolve dir file logical = if leb dir.len logical then ok none else do
    found ← dir_page_pid dir file (logical / entries_per_dir_page)
    elim found [
      | none ↦ ok none
      | some dir_pid ↦ do
        page ← pages.read_page file dir_pid
        ok (mapped (read_entry page (logical % entries_per_dir_page)))
    ]
