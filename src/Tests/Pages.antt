-- ===== src/Tests/Pages.antt =====
-- storage/page.rs on a page of 64-byte slots.
use chiffondb.Prelude.{
  ℕ, ◌+◌, ◌*◌, ◌≤◌, ◌<◌, ◌≡◌, ◌≢◌, inr, refl, some, List, replicate, length-replicate,
  All-replicate, ok, err, storage_corrupted, arith, true, false, ◌==◌, if◌then◌else◌,
}
use chiffondb.Bytes.Words.{IsByte}
use chiffondb.Storage.Page
use chiffondb.Storage.Page.{Page, IsPage}
use chiffondb.Storage.Page.Bitmap
use chiffondb.Storage.Page.Slots
use chiffondb.Storage.Page.Fresh
use chiffondb.Storage.Page.Capacity

-- An empty page, and it with slot 0 allocated.
abbrev blank : Page
blank = record { bytes = replicate 4096 0; slot_size = 64; slot_count = 63 }

blank-IsPage : IsPage blank
blank-IsPage = record {
  size = length-replicate 4096 0;
  in_range = All-replicate IsByte 4096 0 (omega arith);
  room = omega arith;
}

abbrev content : List ℕ
content = replicate 64 171

from_bytes_effect_example :
    (p : Page) × (Page.from_bytes (replicate 4096 0) 64 ≡ ok p)
    × IsPage p
    × (p.bytes ≡ replicate 4096 0)
    × (p.slot_size ≡ 64)
from_bytes_effect_example =
    Fresh.from_bytes_effect (replicate 4096 0) 64 (omega arith) (length-replicate 4096 0)
      (All-replicate IsByte 4096 0 (omega arith))

first_alloc : Page.alloc_slot blank ≡ (some 0, Page.set_bitmap blank 0 true)
unfolding Page.alloc_slot Page.alloc_from Page.is_used replicate
first_alloc = refl

is_used-alloc_slot_example :
    (0 < 63)
    × (Page.is_used blank 0 ≡ false)
    × ((j : ℕ)
        → Page.is_used (Page.set_bitmap blank 0 true) j
          ≡ (if 0 == j then true else Page.is_used blank j))
is_used-alloc_slot_example =
    Bitmap.is_used-alloc_slot blank (Page.set_bitmap blank 0 true) 0 blank-IsPage first_alloc

first_free : Page.free_slot blank 5 ≡ ok (Page.set_bitmap blank 5 false)
unfolding Page.free_slot
first_free = refl

write_slot_effect_example :
    (p' : Page) × (Page.write_slot blank 2 content ≡ ok p')
    × IsPage p'
    × (Page.read_slot p' 2 ≡ ok content)
    × ((j : ℕ) → 2 ≢ j → Page.read_slot p' j ≡ Page.read_slot blank j)
    × ((j : ℕ) → Page.is_used p' j ≡ Page.is_used blank j)
write_slot_effect_example =
    Slots.write_slot_effect blank 2 content blank-IsPage (omega arith) (length-replicate 64 171)
      (All-replicate IsByte 64 171 (omega arith))

write_slot_refused_example : Page.write_slot blank 63 content ≡ err (storage_corrupted 0)
write_slot_refused_example = Slots.write_slot_refused blank 63 content (inr (omega arith))

not_maximal_example :
    (n : ℕ) × (Page.compute_slot_count 8 < n) × (Page.bitmap_bytes n + n * 8 ≤ 4096)
not_maximal_example = Capacity.compute_slot_count_not_maximal 8 (omega arith) (omega arith)
