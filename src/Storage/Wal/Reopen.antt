-- ===== src/Storage/Wal/Reopen.antt =====
-- Two files on which reopening the log brings back entries that were never written, or no longer
-- stood in the index.
use chiffondb.Prelude.{
  ℕ, zero, suc, ◌≡◌, ◌≢◌, refl, ap, ◌∙◌, sym, List, [], ◌∷◌, ◌++◌, length, drop, replicate,
  length-replicate, arith, All, All-append,
}
use chiffondb.Bytes.Slices.{slice, patch}
use chiffondb.Bytes.Words.{from_le_bytes, le_bytes_u32}
use chiffondb.Storage.Page.{page_size}
use chiffondb.Storage.Wal.{wal_entry_size, sum_bytes, checksum, entry_bytes, write, open_wal}
use chiffondb.Storage.Wal.Index.{Entry, IsEntry}
use chiffondb.Storage.Wal.Scan.{encode, cut, broken, encode-append}
use chiffondb.Storage.Wal.Log.{Represents, open_wal-Represents, write-Represents, encode_snoc}
use mathlib.Core.List.{append-nil}

drop-length : (bs xs : List ℕ) → drop (length bs) (bs ++ xs) ≡ xs
drop-length [] xs = refl
drop-length (b ∷ bs) xs = drop-length bs xs

-- A damaged entry ends the log when the file is opened, but the entries behind it stay in the
-- file. The first write covers the damaged entry, and when the file is opened again the old
-- entries follow the new one in the log.
pub open_wal_stale :
    (log stale : List Entry) (bytes : List ℕ) (page_id : ℕ) (page : List ℕ)
    → All IsEntry log
    → All IsEntry stale
    → IsEntry (page_id, page)
    → length bytes ≡ wal_entry_size
    → from_le_bytes (slice 4 4 bytes)
      ≢ checksum (from_le_bytes (slice 0 4 bytes)) (slice 8 page_size bytes)
    → Represents (open_wal (encode log ++ (bytes ++ encode stale))) log (bytes ++ encode stale)
      × Represents
          (open_wal (write (open_wal (encode log ++ (bytes ++ encode stale))) page_id page).file)
          ((log ++ ((page_id, page) ∷ [])) ++ stale)
          []
open_wal_stale log stale bytes page_id page fits old new l bad =
    let before =
      open_wal-Represents log (bytes ++ encode stale) fits
        (broken bytes (encode stale) refl l bad) in
    let after = write-Represents _ log (bytes ++ encode stale) page_id page before new in
    let file =
      after.file_eq
      ∙ ap (λ (xs : List ℕ). encode (log ++ ((page_id, page) ∷ [])) ++ xs)
          (ap (λ (n : ℕ). drop n (bytes ++ encode stale)) (sym l)
            ∙ drop-length bytes (encode stale))
      ∙ sym (encode-append (log ++ ((page_id, page) ∷ [])) stale)
      ∙ sym (append-nil _) in
    (
      before,
      rw file (
          open_wal-Represents ((log ++ ((page_id, page) ∷ [])) ++ stale) []
            (All-append IsEntry (log ++ ((page_id, page) ∷ [])) stale after.entries old)
            (cut (omega arith))),
    )

sum_bytes-replicate : (n : ℕ) → sum_bytes 0 (replicate n 0) ≡ 0
unfolding sum_bytes replicate
sum_bytes-replicate zero = refl
sum_bytes-replicate (suc n) = sum_bytes-replicate n

patch-replicate : (off k n : ℕ) → patch off (replicate k 0) (replicate n zero) ≡ replicate n zero
unfolding patch replicate
patch-replicate off k zero = refl
patch-replicate zero zero (suc n) = refl
patch-replicate zero (suc k) (suc n) = ap (◌∷◌ 0) (patch-replicate zero k n)
patch-replicate (suc off) k (suc n) = ap (◌∷◌ 0) (patch-replicate off k n)

le_bytes_u32-zero : le_bytes_u32 0 ≡ replicate 4 0
unfolding le_bytes_u32 replicate
le_bytes_u32-zero = refl

abbrev blank_page : List ℕ
blank_page = replicate page_size 0

blank_entry : entry_bytes 0 blank_page ≡ replicate wal_entry_size 0
unfolding entry_bytes checksum
blank_entry =
    rw (sum_bytes-replicate page_size, le_bytes_u32-zero)
      (rw (patch-replicate 0 4 wal_entry_size, patch-replicate 4 4 wal_entry_size)
        (patch-replicate 8 page_size wal_entry_size))

-- The additive checksum accepts an entry of zero bytes: a log file that a crash left with one
-- entry's worth of zeros at its end is opened as a log that blanks page 0.
pub open_wal_zero_tail :
    (log : List Entry)
    → All IsEntry log
    → Represents
        (open_wal (encode log ++ replicate wal_entry_size 0))
        (log ++ ((0, blank_page) ∷ []))
        []
open_wal_zero_tail log fits =
    let file : encode log ++ replicate wal_entry_size 0
        ≡ encode (log ++ ((0, blank_page) ∷ [])) ++ [] =
      ap (◌++◌ (encode log)) (sym blank_entry)
      ∙ encode_snoc log (0, blank_page)
      ∙ sym (append-nil _) in
    rw file (
      open_wal-Represents (log ++ ((0, blank_page) ∷ [])) []
        (All-append IsEntry log ((0, blank_page) ∷ []) fits
          ((omega arith, length-replicate page_size 0), tt))
        (cut (omega arith)))
