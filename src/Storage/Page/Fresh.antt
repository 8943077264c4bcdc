-- ===== src/Storage/Page/Fresh.antt =====
-- A page made by `Page::new`, and one read back by `Page::from_bytes`.
use chiffondb.Prelude.{
  ℕ, zero, suc, ◌/◌, ◌%◌, ◌^◌, ◌<◌, ◌≡◌, refl, List, length, get_or, replicate, length-replicate,
  All-replicate, arith, ok, false,
}
use chiffondb.Bytes.Words.{IsBytes, IsByte}
use chiffondb.Storage.Page.{Page, IsPage, page_size, new, from_bytes, is_used, compute_slot_count}
use chiffondb.Storage.Page.Capacity.{compute_slot_count_fits}

get_or-replicate : (n i : ℕ) → get_or (replicate n zero) i 0 ≡ 0
unfolding replicate
get_or-replicate zero i = refl
get_or-replicate (suc n) zero = refl
get_or-replicate (suc n) (suc i) = get_or-replicate n i

zero-div_pow : (k : ℕ) → 0 / 2 ^ k % 2 ≡ 0
zero-div_pow k = grind arith

-- A new page of a positive slot size is well formed, and none of its slots is used.
pub new_effect :
    (s : ℕ)
    → 0 < s
    → (p : Page) × (new s ≡ ok p) × IsPage p × (p.slot_size ≡ s) × ((i : ℕ) → is_used p i ≡ false)
unfolding new is_used
new_effect s h = (
  record { bytes = replicate page_size 0; slot_size = s; slot_count = compute_slot_count s },
  ground arith,
  record {
    size = length-replicate page_size 0;
    in_range = All-replicate IsByte page_size 0 (omega arith);
    room = compute_slot_count_fits s;
  },
  refl,
  λ i. ground (arith, get_or-replicate page_size (i / 8), zero-div_pow (i % 8)),
)

-- 4096 bytes read with a positive slot size are a well-formed page over those bytes.
pub from_bytes_effect :
    (bytes : List ℕ) (s : ℕ)
    → 0 < s
    → length bytes ≡ page_size
    → IsBytes bytes
    → (p : Page) × (from_bytes bytes s ≡ ok p) × IsPage p × (p.bytes ≡ bytes) × (p.slot_size ≡ s)
unfolding from_bytes
from_bytes_effect bytes s h l b = (
  record { bytes = bytes; slot_size = s; slot_count = compute_slot_count s },
  ground arith,
  record { size = l; in_range = b; room = compute_slot_count_fits s },
  refl,
  refl,
)
