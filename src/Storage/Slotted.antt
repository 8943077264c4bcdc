-- ===== src/Storage/Slotted.antt =====
-- chiffondb-core/src/storage/property.rs, `SlottedPage`: values of any length in one page, behind a
-- directory of (offset, length) entries. The page is its 4096 bytes.
pub mod View
pub mod Reads
pub mod Writes
pub mod Appends
pub mod Frees
pub mod Released
pub mod Fresh
use chiffondb.Prelude.{
  ℕ, zero, suc, ◌+◌, ◌-◌, ◌*◌, ◌%◌, min, Bool, true, false, Option, none, some, List, [], ◌∷◌,
  length, replicate, Result, ok, err, storage_corrupted, property_slot_freed, ltb, leb, ◌==◌,
  if◌then◌else◌, ◌>>=◌,
}
use chiffondb.Bytes.Slices.{slice, patch, checked_slice, checked_patch}
use chiffondb.Bytes.Words.{le_bytes_u16, from_le_bytes}
use chiffondb.Storage.Page.{page_size}

abbrev pub header_size : ℕ
header_size = 4

abbrev pub slot_entry_size : ℕ
slot_entry_size = 4

abbrev pub tombstone_off : ℕ
tombstone_off = 65535

abbrev pub free_page_marker : ℕ
free_page_marker = 65535

abbrev pub SlottedPage : Type 0
SlottedPage = List ℕ

-- The two header words lie in every page, so reading them cannot go out of range.
unfoldable pub slot_count : SlottedPage → ℕ
slot_count page = from_le_bytes (slice 0 2 page)

unfoldable pub live_count : SlottedPage → ℕ
live_count page = from_le_bytes (slice 2 2 page)

unfoldable pub set_slot_count : ℕ → SlottedPage → SlottedPage
set_slot_count count page = patch 0 (le_bytes_u16 count) page

unfoldable pub set_live_count : ℕ → SlottedPage → SlottedPage
set_live_count count page = patch 2 (le_bytes_u16 count) page

-- `SlottedPage::new`
unfoldable pub new : SlottedPage
new = set_live_count 0 (set_slot_count 0 (replicate page_size 0))

-- `u16::from_le_bytes(self.data[off..off + 2].try_into().unwrap())`
unfoldable pub read_u16 : SlottedPage → ℕ → Result ℕ
read_u16 page off = do word ← checked_slice off 2 page; ok (from_le_bytes word)

abbrev pub dir_offset : ℕ → ℕ
dir_offset idx = header_size + idx * slot_entry_size

-- The loop of `is_valid` from entry `i` on, with `n` entries left.
unfoldable pub valid_from : ℕ → ℕ → SlottedPage → Result Bool
valid_from zero i page = ok true
valid_from (suc n) i page =
    let rest = valid_from n (i + 1) page in
    do
      offset ← read_u16 page (dir_offset i)
      if offset == tombstone_off then rest else do
        len ← read_u16 page (dir_offset i + 2)
        if ltb page_size (offset + len) then ok false else rest

unfoldable pub is_valid : SlottedPage → Result Bool
is_valid page =
    if slot_count page == free_page_marker
    then ok false
    else if ltb page_size (header_size + slot_count page * slot_entry_size)
    then ok false
    else valid_from (slot_count page) 0 page

-- The offsets of `n` entries from entry `i` on.
unfoldable pub offsets_from : ℕ → ℕ → SlottedPage → Result (List ℕ)
offsets_from zero i page = ok []
offsets_from (suc n) i page = do
  offset ← read_u16 page (dir_offset i)
  rest ← offsets_from n (i + 1) page
  ok (offset ∷ rest)

-- `.min().unwrap_or(default)`
unfoldable pub min_or : ℕ → List ℕ → ℕ
min_or default [] = default
min_or default (x ∷ []) = x
min_or default (x ∷ y ∷ ys) = min x (min_or default (y ∷ ys))

unfoldable pub data_end : SlottedPage → Result ℕ
data_end page =
    if slot_count page == 0
    then ok page_size
    else do offsets ← offsets_from (slot_count page) 0 page; ok (min_or page_size offsets)

unfoldable pub free_space : SlottedPage → Result ℕ
free_space page = do
  end ← data_end page
  ok (end - (header_size + (slot_count page + 1) * slot_entry_size))

-- The page after the write, and the new slot. `count as u16 + 1` and `live_count() + 1` wrap.
unfoldable pub write_property : SlottedPage → List ℕ → Result (ℕ × SlottedPage)
write_property page value = do
  let count = slot_count page
  end ← data_end page
  if ltb end (header_size + (count + 1) * slot_entry_size + length value)
      then err (storage_corrupted 0)
      else do
        let start = end - length value
        p1 ← checked_patch start value page
        p2 ← checked_patch (dir_offset count) (le_bytes_u16 start) p1
        p3 ← checked_patch (dir_offset count + 2) (le_bytes_u16 (length value)) p2
        let p4 = set_slot_count ((count + 1) % 65536) p3
        ok (count, set_live_count ((live_count p4 + 1) % 65536) p4)

unfoldable pub free_slot : SlottedPage → ℕ → Result SlottedPage
free_slot page idx = if leb (slot_count page) idx then err (storage_corrupted 0) else do
  offset ← read_u16 page (dir_offset idx)
  if offset == tombstone_off then ok page else do
    p1 ← checked_patch (dir_offset idx) (le_bytes_u16 tombstone_off) page
    p2 ← checked_patch (dir_offset idx + 2) (le_bytes_u16 0) p1
    ok (set_live_count (live_count p2 - 1) p2)

unfoldable pub read_property : SlottedPage → ℕ → Result (List ℕ)
read_property page idx = if leb (slot_count page) idx then err (storage_corrupted 0) else do
  offset ← read_u16 page (dir_offset idx)
  if offset == tombstone_off then err property_slot_freed else do
    len ← read_u16 page (dir_offset idx + 2)
    if ltb page_size (offset + len)
        then err (storage_corrupted 0)
        else checked_slice offset len page
