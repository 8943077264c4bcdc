-- ===== src/Storage/Slotted/View.antt =====
-- A slotted page as its header words and directory entries, and its well-formedness.
use chiffondb.Prelude.{
  ℕ, zero, suc, ◌+◌, ◌*◌, ◌≤◌, ◌<◌, ◌≡◌, ◌≢◌, ◌⊎◌, inl, inr, refl, Bool, true, false, List, [], ◌∷◌,
  length, arith, ◌==◌, if◌then◌else◌, ok, Bool-cases,
}
use chiffondb.Bytes.Slices.{slice, checked_slice_ok, length-slice, All-slice}
use chiffondb.Bytes.Words.{IsByte, IsBytes, IsU16, from_le_bytes, from_le_bytes-lt}
use chiffondb.Storage.Page.{page_size}
use chiffondb.Storage.Slotted.{
  SlottedPage, slot_count, live_count, read_u16, dir_offset, offsets_from, min_or, data_end,
  tombstone_off, header_size, slot_entry_size,
}

-- The word at `off`.
unfoldable pub word_at : SlottedPage → ℕ → ℕ
word_at page off = from_le_bytes (slice off 2 page)

abbrev pub offset_at : SlottedPage → ℕ → ℕ
offset_at page i = word_at page (dir_offset i)

abbrev pub length_at : SlottedPage → ℕ → ℕ
length_at page i = word_at page (dir_offset i + 2)

abbrev pub is_live : SlottedPage → ℕ → Bool
is_live page i = if offset_at page i == tombstone_off then false else true

-- How many of the first `n` entries are live.
unfoldable pub count_live : ℕ → SlottedPage → ℕ
count_live zero page = 0
count_live (suc n) page = (if is_live page n then 1 else 0) + count_live n page

-- A live entry's bytes lie between the directory and the end of the page.
abbrev pub EntryFits : SlottedPage → ℕ → Type 0
EntryFits page i =
    (offset_at page i ≡ tombstone_off)
    ⊎ ((header_size + slot_count page * slot_entry_size ≤ offset_at page i)
        × (offset_at page i + length_at page i ≤ page_size))

pub record IsSlotted (page : SlottedPage) : Type 0 where
  pub size : length page ≡ page_size
  pub in_range : IsBytes page
  pub room : header_size + slot_count page * slot_entry_size ≤ page_size
  pub entries : (i : ℕ) → i < slot_count page → EntryFits page i
  pub counted : live_count page ≡ count_live (slot_count page) page

pub read_u16_ok :
    (page : SlottedPage) (off : ℕ)
    → off + 2 ≤ length page
    → read_u16 page off ≡ ok (word_at page off)
unfolding read_u16 word_at
read_u16_ok page off h = rw (checked_slice_ok off 2 page h)

pub word_at-lt :
    (page : SlottedPage) (off : ℕ) → IsBytes page → off + 2 ≤ length page → IsU16 (word_at page off)
unfolding word_at
word_at-lt page off v h =
    let l : length (slice off 2 page) ≡ 2 = length-slice off 2 page h in
    rw l at (from_le_bytes-lt (slice off 2 page) (All-slice IsByte off 2 page v))

pub count_live-le : (n : ℕ) (page : SlottedPage) → count_live n page ≤ n
unfolding count_live
count_live-le zero page = omega arith
count_live-le (suc n) page = ground (arith, count_live-le n page)

-- Some entry is live exactly when the count is not 0.
pub count_live-pos :
    (n : ℕ) (page : SlottedPage)
    → 0 < count_live n page
    → (j : ℕ) × (j < n) × (offset_at page j ≢ tombstone_off)
unfolding count_live
count_live-pos zero page h = absurd (omega arith)
count_live-pos (suc n) page h = elim (Bool-cases (offset_at page n == tombstone_off)) [
  | inl dead ↦ let (j, lt, live) = count_live-pos n page (ground arith) in (j, omega arith, live)
  | inr live ↦ (n, omega arith, ground arith)
]

-- The least of the offsets, where they can be read.
offsets_from_ok :
    (n i : ℕ) (page : SlottedPage)
    → length page ≡ page_size
    → header_size + (i + n) * slot_entry_size ≤ page_size
    → (xs : List ℕ) × (offsets_from n i page ≡ ok xs)
      × (length xs ≡ n)
      × ((d j : ℕ) → i ≤ j → j < i + n → min_or d xs ≤ offset_at page j)
      × ((d m : ℕ) → 0 < n → ((j : ℕ) → i ≤ j → j < i + n → offset_at page j ≡ m) → min_or d xs ≡ m)
unfolding offsets_from
offsets_from_ok zero i page s h =
    ([], refl, refl, (λ d j lo hi. absurd (omega arith)), (λ d m pos same. absurd (omega arith)))
offsets_from_ok (suc n) i page s h =
    let (xs, read, len, least, const) = offsets_from_ok n (i + 1) page s (omega arith) in
    (
      offset_at page i ∷ xs,
      rw (read_u16_ok page (dir_offset i) (omega arith), read),
      omega arith,
      (λ d j lo hi. least_cons xs d j lo hi len least),
      (λ d m pos same. const_cons xs d m same len const),
    )
  where
    least_cons :
        (xs : List ℕ) (d j : ℕ)
        → i ≤ j
        → j < i + suc n
        → length xs ≡ n
        → ((d j : ℕ) → i + 1 ≤ j → j < i + 1 + n → min_or d xs ≤ offset_at page j)
        → min_or d (offset_at page i ∷ xs) ≤ offset_at page j
    least_cons [] d j lo hi len least =
        let e : j ≡ i = omega arith in rw e (unfold min_or in omega arith)
    least_cons (y ∷ ys) d j lo hi len least = elim (Bool-cases (i == j)) [
      | inl e ↦ let same : j ≡ i = ground arith in rw same (unfold min_or in omega arith)
      | inr ne ↦
          let ge : i + 1 ≤ j = ground arith in
          let below = least d j ge (omega arith) in unfold min_or in omega arith
    ]

    const_cons :
        (xs : List ℕ) (d m : ℕ)
        → ((j : ℕ) → i ≤ j → j < i + suc n → offset_at page j ≡ m)
        → length xs ≡ n
        → ((d m : ℕ)
            → 0 < n
            → ((j : ℕ) → i + 1 ≤ j → j < i + 1 + n → offset_at page j ≡ m)
            → min_or d xs ≡ m)
        → min_or d (offset_at page i ∷ xs) ≡ m
    const_cons [] d m same len const = unfold min_or in same i (omega arith) (omega arith)
    const_cons (y ∷ ys) d m same len const =
        let tail = const d m (omega arith) (λ j lo hi. same j (omega arith) (omega arith)) in
        let head = same i (omega arith) (omega arith) in unfold min_or in omega arith

-- `data_end` of a page whose directory fits: at most every offset, and the page size with no slot.
pub data_end_ok :
    (page : SlottedPage)
    → length page ≡ page_size
    → header_size + slot_count page * slot_entry_size ≤ page_size
    → (end : ℕ) × (data_end page ≡ ok end)
      × ((j : ℕ) → j < slot_count page → end ≤ offset_at page j)
      × (slot_count page ≡ 0 → end ≡ page_size)
      × ((m : ℕ)
          → 0 < slot_count page
          → ((j : ℕ) → j < slot_count page → offset_at page j ≡ m)
          → end ≡ m)
unfolding data_end
data_end_ok page s h = elim (Bool-cases (slot_count page == 0)) [
  | inl empty ↦
      let none_left : slot_count page ≡ 0 = ground arith in
      (
        page_size,
        rw empty,
        (λ j lt. absurd (omega arith)),
        (λ e. refl),
        (λ m pos same. absurd (omega arith)),
      )
  | inr more ↦
      let (xs, read, len, least, const) =
        offsets_from_ok (slot_count page) 0 page s (omega arith) in
      (
        min_or page_size xs,
        rw (more, read),
        (λ j lt. least page_size j (omega arith) (omega arith)),
        (λ e. absurd (ground arith)),
        (λ m pos same. const page_size m pos (λ j lo hi. same j (omega arith))),
      )
]

pub count_live_step :
    (n : ℕ) (page : SlottedPage)
    → offset_at page n ≢ tombstone_off
    → count_live (suc n) page ≡ count_live n page + 1
unfolding count_live
count_live_step n page live = ground arith

pub count_live_same :
    (n : ℕ) (page page' : SlottedPage)
    → ((i : ℕ) → i < n → offset_at page' i ≡ offset_at page i)
    → count_live n page' ≡ count_live n page
unfolding count_live
count_live_same zero page page' same = refl
count_live_same (suc n) page page' same =
    rw (same n (omega arith), count_live_same n page page' (λ i lt. same i (omega arith)))

count_live-zero :
    (n : ℕ) (page : SlottedPage)
    → count_live n page ≡ 0
    → (j : ℕ) → j < n
    → offset_at page j ≡ tombstone_off
unfolding count_live
count_live-zero zero page e j lt = absurd (omega arith)
count_live-zero (suc n) page e j lt = elim (Bool-cases (j == n)) [
  | inl same ↦ ground arith
  | inr ne ↦ count_live-zero n page (ground arith) j (ground arith)
]

pub all_dead :
    (page : SlottedPage)
    → IsSlotted page
    → live_count page ≡ 0
    → (j : ℕ) → j < slot_count page
    → offset_at page j ≡ tombstone_off
all_dead page v e = count_live-zero (slot_count page) page (omega (arith, v.counted))

-- With a live slot, or with no slot at all, the data area ends within the page.
pub data_end-le :
    (page : SlottedPage)
    → IsSlotted page
    → (slot_count page ≡ 0) ⊎ (0 < live_count page)
    → (end : ℕ) × (data_end page ≡ ok end)
      × (end ≤ page_size)
      × ((j : ℕ) → j < slot_count page → end ≤ offset_at page j)
data_end-le page v some_live =
    let (end, run, least, empty, const) = data_end_ok page v.size v.room in
    (end, run, bound end least empty some_live, least)
  where
    bound :
        (end : ℕ)
        → ((j : ℕ) → j < slot_count page → end ≤ offset_at page j)
        → (slot_count page ≡ 0 → end ≡ page_size)
        → (slot_count page ≡ 0) ⊎ (0 < live_count page)
        → end ≤ page_size
    bound end least empty (inl e) = omega (arith, empty e)
    bound end least empty (inr pos) =
        let (j, lt, live) = count_live-pos (slot_count page) page (omega (arith, v.counted)) in
        ground (arith, v.entries j lt, least j lt)
