-- ===== src/Storage/Page/Capacity.antt =====
-- How many slots a page holds.
use chiffondb.Prelude.{
  ℕ, zero, suc, ◌+◌, ◌*◌, ◌/◌, ◌≤◌, ◌<◌, ◌≡◌, refl, Bool, true, arith, leb, leb→le, holds_below,
  holds_below_sound,
}
use chiffondb.Storage.Page.{page_size, bitmap_bytes, fit_slots, compute_slot_count}

-- The loop of `compute_slot_count` never runs: its start already fits.
pub start_fits : (s : ℕ) → bitmap_bytes (page_size / (s + 1)) + page_size / (s + 1) * s ≤ page_size
start_fits s = grind arith

-- `compute_slot_count` is the quotient that it starts from.
pub compute_slot_count_lem : (s : ℕ) → compute_slot_count s ≡ page_size / (s + 1)
unfolding compute_slot_count
compute_slot_count_lem s = go (page_size / (s + 1)) (start_fits s)
  where
    go : (n : ℕ) → bitmap_bytes n + n * s ≤ page_size → fit_slots s n ≡ n
    go zero h = unfold fit_slots in refl
    go (suc n) h = unfold fit_slots in ground arith

-- The bitmap and the slots of a page fit in its 4096 bytes.
pub compute_slot_count_fits :
    (s : ℕ) → bitmap_bytes (compute_slot_count s) + compute_slot_count s * s ≤ page_size
compute_slot_count_fits s = rw compute_slot_count_lem (start_fits s)

one_more_fits : ℕ → Bool
one_more_fits s = let n = page_size / (s + 1) + 1 in leb (bitmap_bytes n + n * s) page_size

small_slots : holds_below 54 one_more_fits ≡ true
unfolding holds_below one_more_fits
small_slots = refl

-- For every slot size from 1 to 53 the page has room for more slots than `compute_slot_count` gives.
pub compute_slot_count_not_maximal :
    (s : ℕ)
    → 0 < s
    → s < 54
    → (n : ℕ) × (compute_slot_count s < n) × (bitmap_bytes n + n * s ≤ page_size)
unfolding one_more_fits
compute_slot_count_not_maximal s h lt = (
  page_size / (s + 1) + 1,
  omega (arith, compute_slot_count_lem s),
  leb→le _ _ (holds_below_sound one_more_fits 54 s lt small_slots),
)

-- At slot size 64, that of the node and edge records, one more slot would not fit.
pub compute_slot_count_maximal_64 :
    (n : ℕ) → bitmap_bytes n + n * 64 ≤ page_size → n ≤ compute_slot_count 64
compute_slot_count_maximal_64 n h = omega (arith, compute_slot_count_lem 64)
