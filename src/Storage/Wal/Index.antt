-- ===== src/Storage/Wal/Index.antt =====
-- Entries as bytes, and what reading a file at an entry's offset gives.
use chiffondb.Prelude.{
  ℕ, zero, suc, ◌+◌, ◌%◌, ◌<◌, ◌≡◌, refl, ap, ◌∙◌, sym, none, some, List, [], ◌∷◌, ◌++◌, length,
  take, drop, arith, leb, ◌==◌, if◌then◌else◌, length-append, length-replicate, true, replicate,
  le→leb,
}
use chiffondb.Bytes.Slices.{slice, take-length}
use chiffondb.Bytes.Words.{
  IsU32, le_bytes_u32, from_le_bytes, length-le_bytes_u32, from_le_bytes-le_bytes_u32,
}
use chiffondb.Bytes.Layout.{Field, write_fields, slice-write_fields, length-write_fields}
use chiffondb.Storage.Page.{page_size}
use chiffondb.Storage.Wal.{
  wal_entry_size, sum_bytes, checksum, entry_bytes, read_entry, get, insert, Offsets,
}

-- A page id and the bytes of a page.
abbrev pub Entry : Type 0
Entry = ℕ × List ℕ

abbrev pub IsEntry : Entry → Type 0
IsEntry e = IsU32 (e.0) × (length (e.1) ≡ page_size)

sum_bytes-IsU32 : (bs : List ℕ) (sum : ℕ) → IsU32 sum → IsU32 (sum_bytes sum bs)
unfolding sum_bytes
sum_bytes-IsU32 [] sum h = h
sum_bytes-IsU32 (b ∷ bs) sum h = sum_bytes-IsU32 bs ((sum + b) % 4294967296) (omega arith)

checksum-IsU32 : (page_id : ℕ) (page : List ℕ) → IsU32 page_id → IsU32 (checksum page_id page)
unfolding checksum
checksum-IsU32 page_id page h = sum_bytes-IsU32 page page_id h

module _ (page_id : ℕ) (page : List ℕ) where
  abbrev fields : List Field
  fields = (0, le_bytes_u32 page_id) ∷ (4, le_bytes_u32 (checksum page_id page)) ∷ (8, page) ∷ []

  pub length-entry_bytes : length (entry_bytes page_id page) ≡ wal_entry_size
  unfolding entry_bytes write_fields
  length-entry_bytes =
      length-write_fields fields (replicate wal_entry_size 0) ∙ length-replicate wal_entry_size 0

  module _ (fits : IsEntry (page_id, page)) where
    pub page_id-entry_bytes : from_le_bytes (slice 0 4 (entry_bytes page_id page)) ≡ page_id
    unfolding entry_bytes write_fields
    page_id-entry_bytes =
        ap from_le_bytes (
          slice-write_fields 0 fields (replicate wal_entry_size 0) refl (length-le_bytes_u32 _)
            (omega (arith, length-replicate wal_entry_size zero))
            (omega (arith, length-le_bytes_u32)))
        ∙ from_le_bytes-le_bytes_u32 page_id (fits.0)

    pub checksum-entry_bytes :
        from_le_bytes (slice 4 4 (entry_bytes page_id page)) ≡ checksum page_id page
    unfolding entry_bytes write_fields
    checksum-entry_bytes =
        ap from_le_bytes (
          slice-write_fields 1 fields (replicate wal_entry_size 0) refl (length-le_bytes_u32 _)
            (omega (arith, length-replicate wal_entry_size zero))
            (omega (arith, length-le_bytes_u32)))
        ∙ from_le_bytes-le_bytes_u32 _ (checksum-IsU32 page_id page (fits.0))

    pub page-entry_bytes : slice 8 page_size (entry_bytes page_id page) ≡ page
    unfolding entry_bytes write_fields
    page-entry_bytes =
        slice-write_fields 2 fields (replicate wal_entry_size 0) refl (fits.1)
          (omega (arith, length-replicate wal_entry_size zero)) tt

pub drop-length-append :
    (pre suf : List ℕ) (n : ℕ) → drop (length pre + n) (pre ++ suf) ≡ drop n suf
drop-length-append [] suf n = ap (λ (k : ℕ). drop k suf) (omega arith)
drop-length-append (x ∷ pre) suf n =
    let step : suc (length pre) + n ≡ suc (length pre + n) = omega arith in
    rw step (drop-length-append pre suf n)

pub slice-length-append :
    (pre suf : List ℕ) (n : ℕ) → slice (length pre) n (pre ++ suf) ≡ take n suf
unfolding slice
slice-length-append pre suf n =
    let zero_more : length pre + 0 ≡ length pre = omega arith in
    ap (take n) (rw zero_more at (drop-length-append pre suf 0))

-- An entry that stands behind `pre` is read at the offset `length pre`.
pub read_entry-append :
    (pre e suf : List ℕ)
    → length e ≡ wal_entry_size
    → read_entry (pre ++ (e ++ suf)) (length pre) ≡ some e
unfolding read_entry
read_entry-append pre e suf h =
    let room : leb (length pre + wal_entry_size) (length (pre ++ (e ++ suf))) ≡ true =
      le→leb _ _ (omega (arith, length-append pre (e ++ suf), length-append e suf)) in
    rw room (
      ap some (
        slice-length-append pre (e ++ suf) wal_entry_size
        ∙ ap (λ (n : ℕ). take n (e ++ suf)) (sym h)
        ∙ take-length e suf))

-- Behind `pre` there are fewer bytes than an entry has.
pub read_entry_short :
    (pre suf : List ℕ) → length suf < wal_entry_size → read_entry (pre ++ suf) (length pre) ≡ none
unfolding read_entry
read_entry_short pre suf h = ground (arith, length-append pre suf)

pub get-insert :
    (k j v : ℕ) (m : Offsets) → get j (insert k v m) ≡ (if k == j then some v else get j m)
unfolding get insert
get-insert k j v [] = refl
get-insert k j v ((i, w) ∷ m) = ground (arith, get-insert k j v m)
