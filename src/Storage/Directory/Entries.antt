-- ===== src/Storage/Directory/Entries.antt =====
-- The words of a directory page.
use chiffondb.Prelude.{ℕ, ◌+◌, ◌*◌, ◌<◌, ◌≡◌, ◌≢◌, inl, List, length, arith, ap, ◌∙◌}
use chiffondb.Bytes.Slices.{slice-patch_self, slice-patch_apart}
use chiffondb.Bytes.Words.{
  IsU32, le_bytes_u32, from_le_bytes, length-le_bytes_u32, from_le_bytes-le_bytes_u32,
}
use chiffondb.Storage.Page.{page_size}
use chiffondb.Storage.Directory.{read_link, read_entry, write_entry, entries_per_dir_page}

-- An entry that is written is read back.
pub read_entry-write_entry_self :
    (page : List ℕ) (slot physical : ℕ)
    → length page ≡ page_size
    → slot < entries_per_dir_page
    → IsU32 physical
    → read_entry (write_entry page slot physical) slot ≡ physical
unfolding read_entry write_entry le_bytes_u32
read_entry-write_entry_self page slot physical s lt fits =
    ap from_le_bytes (
      slice-patch_self (4 + slot * 4) (le_bytes_u32 physical) page
        (omega (arith, length-le_bytes_u32 physical)))
    ∙ from_le_bytes-le_bytes_u32 physical fits

pub read_entry-write_entry_ne :
    (page : List ℕ) (slot other physical : ℕ)
    → slot ≢ other
    → read_entry (write_entry page slot physical) other ≡ read_entry page other
unfolding read_entry write_entry le_bytes_u32
read_entry-write_entry_ne page slot other physical ne = ap from_le_bytes (
    slice-patch_apart (4 + other * 4) 4 (4 + slot * 4) (le_bytes_u32 physical) page
      (omega (arith, length-le_bytes_u32 physical)))

pub read_link-write_entry :
    (page : List ℕ) (slot physical : ℕ)
    → read_link (write_entry page slot physical) ≡ read_link page
unfolding read_link write_entry
read_link-write_entry page slot physical =
    ap from_le_bytes
      (slice-patch_apart 0 4 (4 + slot * 4) (le_bytes_u32 physical) page (inl (omega arith)))
