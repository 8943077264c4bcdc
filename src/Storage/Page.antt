-- ===== src/Storage/Page.antt =====
-- chiffondb-core/src/storage/page.rs: a 4096-byte page of fixed-size slots behind a used-bitmap.
pub mod Bits
pub mod Capacity
pub mod Bitmap
pub mod Slots
pub mod Fresh
use chiffondb.Prelude.{
  ℕ, zero, suc, ◌+◌, ◌-◌, ◌*◌, ◌/◌, ◌%◌, ◌^◌, Bool, true, false, Option, none, some, List, length,
  get_or, set, replicate, ◌≡◌, ◌≤◌, Result, ok, err, panic, storage_corrupted, ltb, leb, ◌==◌,
  if◌then◌else◌, not, bit_and, bit_or, ◌>>=◌,
}
use chiffondb.Bytes.Slices.{checked_slice, checked_patch}
use chiffondb.Bytes.Words.{IsBytes}

abbrev pub page_size : ℕ
page_size = 4096

-- `slot_count.div_ceil(8)`
abbrev pub bitmap_bytes : ℕ → ℕ
bitmap_bytes slot_count = (slot_count + 7) / 8

-- `struct Page`; `data` holds 4096 bytes.
pub record Page : Type 0 where
  pub bytes : List ℕ
  pub slot_size : ℕ
  pub slot_count : ℕ

-- `while bitmap_bytes(n) + n * slot_size > PAGE_SIZE { n -= 1; }`; at 0 the test fails.
unfoldable pub fit_slots : ℕ → ℕ → ℕ
fit_slots slot_size zero = zero
fit_slots slot_size (suc n) =
    let rest = fit_slots slot_size n in
    if ltb page_size (bitmap_bytes (suc n) + suc n * slot_size) then rest else suc n

unfoldable pub compute_slot_count : ℕ → ℕ
compute_slot_count slot_size = fit_slots slot_size (page_size / (slot_size + 1))

-- `Page::new`: `assert!(slot_size > 0)` panics at 0.
unfoldable pub new : ℕ → Result Page
unfolding compute_slot_count fit_slots
new slot_size =
    if slot_size == 0
    then panic
    else ok (record {
      bytes = replicate page_size 0;
      slot_size = slot_size;
      slot_count = compute_slot_count slot_size;
    })

unfoldable pub from_bytes : List ℕ → ℕ → Result Page
unfolding compute_slot_count fit_slots
from_bytes bytes slot_size =
    if slot_size == 0
    then panic
    else ok
        (record { bytes = bytes; slot_size = slot_size; slot_count = compute_slot_count slot_size })

-- `(self.data[byte] >> bit) & 1 == 1`, with the bound test first.
unfoldable pub is_used : Page → ℕ → Bool
is_used p idx =
    if leb p.slot_count idx then false else (get_or p.bytes (idx / 8) 0 / 2 ^ (idx % 8)) % 2 == 1

-- `|= 1 << bit` and `&= !(1 << bit)` on one byte.
unfoldable pub set_bit : ℕ → ℕ → Bool → ℕ
set_bit b bit used = if used then bit_or b (2 ^ bit) else bit_and b (255 - 2 ^ bit)

unfoldable pub set_bitmap : Page → ℕ → Bool → Page
set_bitmap p idx used = record p {
  bytes = set p.bytes (idx / 8) (set_bit (get_or p.bytes (idx / 8) 0) (idx % 8) used);
}

-- The loop of `alloc_slot` from slot `i` on, with `n` slots left.
unfoldable pub alloc_from : ℕ → ℕ → Page → Option ℕ × Page
alloc_from zero i p = (none, p)
alloc_from (suc n) i p =
    let rest = alloc_from n (i + 1) p in
    if not (is_used p i) then (some i, set_bitmap p i true) else rest

unfoldable pub alloc_slot : Page → Option ℕ × Page
alloc_slot p = alloc_from p.slot_count 0 p

unfoldable pub free_slot : Page → ℕ → Result Page
free_slot p idx =
    if leb p.slot_count idx then err (storage_corrupted 0) else ok (set_bitmap p idx false)

abbrev pub slot_offset : Page → ℕ → ℕ
slot_offset p idx = bitmap_bytes p.slot_count + idx * p.slot_size

unfoldable pub write_slot : Page → ℕ → List ℕ → Result Page
write_slot p idx content =
    if not (length content == p.slot_size)
    then err (storage_corrupted 0)
    else if leb p.slot_count idx
    then err (storage_corrupted 0)
    else do
      bytes ← checked_patch (slot_offset p idx) content p.bytes
      ok (record p { bytes = bytes })

unfoldable pub read_slot : Page → ℕ → Result (List ℕ)
read_slot p idx =
    if leb p.slot_count idx
    then err (storage_corrupted 0)
    else checked_slice (slot_offset p idx) p.slot_size p.bytes

-- A page whose bitmap and slots lie in its 4096 bytes.
pub record IsPage (p : Page) : Type 0 where
  pub size : length p.bytes ≡ page_size
  pub in_range : IsBytes p.bytes
  pub room : bitmap_bytes p.slot_count + p.slot_count * p.slot_size ≤ page_size
