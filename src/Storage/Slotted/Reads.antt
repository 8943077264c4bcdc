-- ===== src/Storage/Slotted/Reads.antt =====
-- `is_valid` and `read_property` on any page, well formed or not.
use chiffondb.Prelude.{
  not, ◌&&◌, sym, ◌∙◌, ltb→lt, ltb_false→le, ℕ, zero, suc, ◌+◌, ◌*◌, ◌≤◌, ◌<◌, ◌≡◌, ◌≢◌, ◌↔◌, ◌⊎◌,
  inl, inr, refl, Bool, true, false, List, length, arith, ltb, leb, ◌==◌, if◌then◌else◌, Result, ok,
  err, panic, storage_corrupted, property_slot_freed, Bool-cases, leb_false→lt,
}
use chiffondb.Bytes.Slices.{length-slice, slice, checked_slice_ok}
use chiffondb.Storage.Page.{page_size}
use chiffondb.Storage.Slotted.{
  SlottedPage, slot_count, read_u16, dir_offset, valid_from, is_valid, read_property, tombstone_off,
  header_size, slot_entry_size,
}
use chiffondb.Storage.Slotted.View.{IsSlotted, EntryFits, offset_at, length_at, read_u16_ok}

-- What `read_property` gives for an entry whose directory words lie in the page.
unfoldable pub entry_read : SlottedPage → ℕ → Result (List ℕ)
entry_read page i =
    if offset_at page i == tombstone_off
    then err property_slot_freed
    else if ltb page_size (offset_at page i + length_at page i)
    then err (storage_corrupted 0)
    else ok (slice (offset_at page i) (length_at page i) page)

pub read_property_lem :
    (page : SlottedPage) (i : ℕ)
    → length page ≡ page_size
    → i < slot_count page
    → i < 1023
    → read_property page i ≡ entry_read page i
unfolding read_property entry_read
read_property_lem page i s h lt = ground (
  arith,
  read_u16_ok page (dir_offset i),
  read_u16_ok page (dir_offset i + 2),
  checked_slice_ok (offset_at page i) (length_at page i) page,
)

entry_read-ne-panic : (page : SlottedPage) (i : ℕ) → entry_read page i ≢ panic
unfolding entry_read
entry_read-ne-panic page i e = ground arith

read_far :
    (page : SlottedPage) (i : ℕ)
    → length page ≡ page_size
    → 1023 ≤ i
    → read_u16 page (dir_offset i) ≡ panic
unfolding read_u16
read_far page i s h = ground arith

-- On any 4096 bytes `read_property` panics exactly for a slot that the header counts and whose
-- directory entry lies behind the page: slot 1023 and above.
pub read_property-eq-panic_iff :
    (page : SlottedPage) (i : ℕ)
    → length page ≡ page_size
    → (read_property page i ≡ panic) ↔ ((i < slot_count page) × (1023 ≤ i))
read_property-eq-panic_iff page i s = (to, from)
  where
    to : read_property page i ≡ panic → (i < slot_count page) × (1023 ≤ i)
    to e = elim (Bool-cases (leb (slot_count page) i)) [
      | inl out ↦ absurd (unfold read_property in cc (rw out at e))
      | inr within ↦ elim (Bool-cases (ltb i 1023)) [
        | inl near ↦ absurd (
            entry_read-ne-panic page i
              (sym (read_property_lem page i s (leb_false→lt _ _ within) (ltb→lt _ _ near)) ∙ e))
        | inr far ↦ (leb_false→lt _ _ within, ltb_false→le _ _ far)
      ]
    ]

    from : (i < slot_count page) × (1023 ≤ i) → read_property page i ≡ panic
    from (counted, far) = unfold read_property in ground (arith, read_far page i s)

-- The entries that the loop of `is_valid` lets through.
abbrev pub EntryInPage : SlottedPage → ℕ → Type 0
EntryInPage page i =
    (offset_at page i ≡ tombstone_off) ⊎ (offset_at page i + length_at page i ≤ page_size)

entry_in_page : SlottedPage → ℕ → Bool
entry_in_page page i =
    if offset_at page i == tombstone_off
    then true
    else not (ltb page_size (offset_at page i + length_at page i))

entries_in_page : ℕ → ℕ → SlottedPage → Bool
entries_in_page zero i page = true
entries_in_page (suc n) i page = entry_in_page page i && entries_in_page n (i + 1) page

valid_from_ok :
    (n i : ℕ) (page : SlottedPage)
    → length page ≡ page_size
    → header_size + (i + n) * slot_entry_size ≤ page_size
    → valid_from n i page ≡ ok (entries_in_page n i page)
unfolding valid_from entries_in_page entry_in_page
valid_from_ok zero i page s h = refl
valid_from_ok (suc n) i page s h = ground (
  arith,
  read_u16_ok page (dir_offset i),
  read_u16_ok page (dir_offset i + 2),
  valid_from_ok n (i + 1) page s,
)

entry_in_page_iff :
    (page : SlottedPage) (i : ℕ) → (entry_in_page page i ≡ true) ↔ EntryInPage page i
unfolding entry_in_page
entry_in_page_iff page i = ground arith

entries_in_page_sound :
    (n i : ℕ) (page : SlottedPage)
    → entries_in_page n i page ≡ true
    → (j : ℕ) → i ≤ j
    → j < i + n
    → EntryInPage page j
unfolding entries_in_page
entries_in_page_sound zero i page e j lo hi = absurd (omega arith)
entries_in_page_sound (suc n) i page e j lo hi = elim (Bool-cases (i == j)) [
  | inl same ↦
      let ij : i ≡ j = ground arith in rw ij at ((entry_in_page_iff page i).0 (ground arith))
  | inr ne ↦ entries_in_page_sound n (i + 1) page (ground arith) j (ground arith) (omega arith)
]

entries_in_page_complete :
    (n i : ℕ) (page : SlottedPage)
    → ((j : ℕ) → i ≤ j → j < i + n → EntryInPage page j)
    → entries_in_page n i page ≡ true
unfolding entries_in_page
entries_in_page_complete zero i page all = refl
entries_in_page_complete (suc n) i page all =
    rw ((entry_in_page_iff page i).1 (all i (omega arith) (omega arith)))
      (entries_in_page_complete n (i + 1) page (λ j lo hi. all j (omega arith) (omega arith)))

-- `is_valid` never panics on 4096 bytes, and holds exactly for a page that is no free-list member,
-- whose directory fits, and whose live entries end in the page.
pub is_valid_lem :
    (page : SlottedPage)
    → length page ≡ page_size
    → (b : Bool) × (is_valid page ≡ ok b)
      × ((b ≡ true) ↔ (
          (header_size + slot_count page * slot_entry_size ≤ page_size)
          × ((i : ℕ) → i < slot_count page → EntryInPage page i)))
unfolding is_valid
is_valid_lem page s =
    elim (Bool-cases (ltb page_size (header_size + slot_count page * slot_entry_size))) [
      | inl big ↦ (false, ground arith, ((λ e. cc), (λ (room, all). absurd (ground arith))))
      | inr room ↦ (
        entries_in_page (slot_count page) 0 page,
        ground (arith, valid_from_ok (slot_count page) 0 page s),
        (
          (λ e. (
            ground arith,
            λ i lt. entries_in_page_sound (slot_count page) 0 page e i (omega arith) (omega arith),
          )),
          (λ (fits, all).
              entries_in_page_complete (slot_count page) 0 page (λ j lo hi. all j (omega arith))),
        ),
      )
    ]

-- Every slot of a page that `is_valid` accepts is freed or reads as bytes: no panic, no corruption.
pub read_property_of_is_valid :
    (page : SlottedPage) (i : ℕ)
    → length page ≡ page_size
    → is_valid page ≡ ok true
    → i < slot_count page
    → (read_property page i ≡ err property_slot_freed)
      ⊎ ((value : List ℕ) × (read_property page i ≡ ok value) × (length value ≡ length_at page i))
unfolding entry_read
read_property_of_is_valid page i s valid lt =
    let (b, run, iff) = is_valid_lem page s in
    let holds : b ≡ true = cc in
    let (room, all) = iff.0 holds in
    elim (Bool-cases (offset_at page i == tombstone_off)) [
      | inl dead ↦ inl (ground (arith, read_property_lem page i s lt))
      | inr live ↦ inr (
        slice (offset_at page i) (length_at page i) page,
        ground (arith, read_property_lem page i s lt, all i lt),
        length-slice (offset_at page i) (length_at page i) page (ground (arith, all i lt)),
      )
    ]

-- A well-formed page is valid.
pub is_valid_of_IsSlotted : (page : SlottedPage) → IsSlotted page → is_valid page ≡ ok true
is_valid_of_IsSlotted page v =
    let (b, run, iff) = is_valid_lem page v.size in
    let holds : b ≡ true = iff.1 (v.room, λ i lt. in_page i (v.entries i lt)) in cc
  where
    in_page : (i : ℕ) → EntryFits page i → EntryInPage page i
    in_page i (inl dead) = inl dead
    in_page i (inr (lo, hi)) = inr hi
