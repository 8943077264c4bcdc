-- ===== src/Storage/Page/Bitmap.antt =====
-- The used-bitmap: `alloc_slot`, `free_slot`, `is_used`.
use chiffondb.Prelude.{
  ◌∙◌, ℕ, zero, suc, ◌+◌, ◌/◌, ◌%◌, ◌≤◌, ◌<◌, ◌≡◌, ◌⊎◌, inl, inr, refl, Bool, true, false, none,
  some, length, get_or, arith, leb, ◌==◌, if◌then◌else◌, Bool-cases, leb_false→lt, ok, length-set,
  get_or-set_self, get_or-set_ne, All-set, All-get_or,
}
use chiffondb.Bytes.Words.{IsByte}
use chiffondb.Storage.Page.{
  Page, IsPage, is_used, set_bit, set_bitmap, alloc_from, alloc_slot, free_slot,
}
use chiffondb.Storage.Page.Bits.{set_bit-lt, bit_at-set_bit_self, bit_at-set_bit_ne}

module _ (p : Page) (k : ℕ) (used : Bool) (v : IsPage p) (h : k < p.slot_count) where
  abbrev old_byte : ℕ
  old_byte = get_or p.bytes (k / 8) 0

  old_byte-IsByte : IsByte old_byte
  old_byte-IsByte = All-get_or IsByte p.bytes (k / 8) 0 v.in_range (omega arith)

  byte_in_page : k / 8 < length p.bytes
  byte_in_page = omega arith

  pub is_used-set_bitmap_self : is_used (set_bitmap p k used) k ≡ used
  unfolding is_used set_bitmap
  is_used-set_bitmap_self = ground (
    arith,
    get_or-set_self p.bytes (k / 8) (set_bit old_byte (k % 8) used) 0 byte_in_page,
    bit_at-set_bit_self used old_byte (k % 8) old_byte-IsByte,
  )

  pub is_used-set_bitmap_ne : (j : ℕ) → (k ≡ j → ⊥) → is_used (set_bitmap p k used) j ≡ is_used p j
  unfolding is_used set_bitmap
  is_used-set_bitmap_ne j ne = elim (Bool-cases (k / 8 == j / 8)) [
    | inl same ↦ ground (
      arith,
      get_or-set_self p.bytes (k / 8) (set_bit old_byte (k % 8) used) 0 byte_in_page,
      bit_at-set_bit_ne used old_byte (k % 8) (j % 8) old_byte-IsByte,
    )
    | inr apart ↦
        ground (arith, get_or-set_ne p.bytes (k / 8) (j / 8) (set_bit old_byte (k % 8) used) 0)
  ]

  pub set_bitmap-IsPage : IsPage (set_bitmap p k used)
  unfolding set_bitmap
  set_bitmap-IsPage = record {
    size = length-set p.bytes _ _ ∙ v.size;
    in_range =
        All-set IsByte p.bytes _ _ v.in_range
          (set_bit-lt used old_byte (k % 8) old_byte-IsByte (omega arith));
    room = v.room;
  }

  -- The used slots after a bit is written.
  pub is_used-set_bitmap :
      (j : ℕ) → is_used (set_bitmap p k used) j ≡ (if k == j then used else is_used p j)
  is_used-set_bitmap j = elim (Bool-cases (k == j)) [
    | inl e ↦ ground (arith, is_used-set_bitmap_self)
    | inr e ↦ ground (arith, is_used-set_bitmap_ne j (ground arith))
  ]

-- Every slot from `i` on and below `m` is taken.
abbrev pub AllUsed : Page → ℕ → ℕ → Type 0
AllUsed p i m = (j : ℕ) → i ≤ j → j < m → is_used p j ≡ true

-- The slot that the loop finds: the first free one.
abbrev pub FirstFree : Page → ℕ → ℕ → Type 0
FirstFree p i k = (i ≤ k) × (is_used p k ≡ false) × AllUsed p i k

AllUsed-step : (p : Page) (i m : ℕ) → is_used p i ≡ true → AllUsed p (i + 1) m → AllUsed p i m
AllUsed-step p i m e h j lo hi = elim (Bool-cases (i == j)) [
  | inl same ↦ ground arith
  | inr apart ↦ h j (ground arith) hi
]

alloc_from_cases :
    (n i : ℕ) (p : Page)
    → (AllUsed p i (i + n) × (alloc_from n i p ≡ (none, p)))
      ⊎ ((k : ℕ) × (k < i + n)
          × FirstFree p i k
          × (alloc_from n i p ≡ (some k, set_bitmap p k true)))
unfolding alloc_from
alloc_from_cases zero i p = inl ((λ j lo hi. absurd (omega arith)), refl)
alloc_from_cases (suc n) i p = elim (Bool-cases (is_used p i)) [
  | inr free ↦ inr (i, omega arith, (omega arith, free, (λ j lo hi. absurd (omega arith))), rw free)
  | inl taken ↦ elim (alloc_from_cases n (i + 1) p) [
    | inl (full, e) ↦
        inl (AllUsed-step p i (i + suc n) taken (λ j lo hi. full j lo (omega arith)), rw (taken, e))
    | inr (k, lt, first, e) ↦ inr (
      k,
      omega arith,
      (omega (arith, first.0), first.1, AllUsed-step p i k taken first.2),
      rw (taken, e),
    )
  ]
]

-- `alloc_slot` gives `none` and leaves the page where every slot is used; otherwise it gives the
-- lowest free slot and sets its bit.
pub alloc_slot_cases :
    (p : Page)
    → (AllUsed p 0 p.slot_count × (alloc_slot p ≡ (none, p)))
      ⊎ ((k : ℕ) × (k < p.slot_count)
          × FirstFree p 0 k
          × (alloc_slot p ≡ (some k, set_bitmap p k true)))
unfolding alloc_slot
alloc_slot_cases p =
    let e : 0 + p.slot_count ≡ p.slot_count = omega arith in
    rw e at (alloc_from_cases p.slot_count 0 p)

-- A slot that `alloc_slot` gives was free, is used from then on, and no other slot changes.
pub is_used-alloc_slot :
    (p p' : Page) (k : ℕ)
    → IsPage p
    → alloc_slot p ≡ (some k, p')
    → (k < p.slot_count)
      × (is_used p k ≡ false)
      × ((j : ℕ) → is_used p' j ≡ (if k == j then true else is_used p j))
is_used-alloc_slot p p' k v e = elim (alloc_slot_cases p) [
  | inl (full, q) ↦ cc
  | inr (m, lt, first, q) ↦
      let same : m ≡ k = cc in
      let page : set_bitmap p m true ≡ p' = cc in
      (
        rw (← same) lt,
        rw (← same) first.1,
        λ j. rw (← page, ← same) (is_used-set_bitmap p m true v lt j),
      )
]

-- Allocating and freeing keep the page well formed.
pub alloc_slot-IsPage : (p : Page) → IsPage p → IsPage (alloc_slot p).1
alloc_slot-IsPage p v = elim (alloc_slot_cases p) [
  | inl (full, q) ↦ rw q v
  | inr (m, lt, first, q) ↦ rw q (set_bitmap-IsPage p m true v lt)
]

-- `free_slot` marks the slot free and no other.
pub is_used-free_slot :
    (p p' : Page) (k : ℕ)
    → IsPage p
    → free_slot p k ≡ ok p'
    → (j : ℕ) → is_used p' j ≡ (if k == j then false else is_used p j)
unfolding free_slot
is_used-free_slot p p' k v e j = elim (Bool-cases (leb p.slot_count k)) [
  | inl out ↦ cc (rw out at e)
  | inr within ↦ ground (arith, is_used-set_bitmap p k false v (leb_false→lt _ _ within) j)
]
