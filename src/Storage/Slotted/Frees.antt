-- ===== src/Storage/Slotted/Frees.antt =====
-- `free_slot` on a well-formed page.
use chiffondb.Prelude.{
  ℕ, zero, suc, ◌+◌, ◌-◌, ◌*◌, ◌≤◌, ◌<◌, ◌≡◌, ◌≢◌, ◌⊎◌, inl, inr, refl, ap, sym, ◌∙◌, List, [], ◌∷◌,
  length, arith, leb, ◌==◌, ok, err, property_slot_freed, Bool-cases, false,
}
use chiffondb.Bytes.Slices.{slice, patch, checked_patch_ok, length-patch}
use chiffondb.Bytes.Words.{
  IsBytes, le_bytes_u16, from_le_bytes, length-le_bytes_u16, le_bytes_u16-IsBytes,
  from_le_bytes-le_bytes_u16,
}
use chiffondb.Bytes.Layout.{
  Field, write_fields, length-write_fields, slice-write_fields, slice-write_fields-Apart,
  write_fields-IsBytes,
}
use chiffondb.Storage.Page.{page_size}
use chiffondb.Storage.Slotted.{
  SlottedPage, slot_count, live_count, set_live_count, dir_offset, free_slot, read_property,
  tombstone_off, header_size, slot_entry_size,
}
use chiffondb.Storage.Slotted.View.{
  count_live_same, IsSlotted, EntryFits, word_at, offset_at, length_at, count_live, count_live-le,
  read_u16_ok,
}
use chiffondb.Storage.Slotted.Reads.{entry_read, read_property_lem}

abbrev pub free_list : SlottedPage → ℕ → List Field
free_list page k =
    (dir_offset k, le_bytes_u16 tombstone_off)
    ∷ (dir_offset k + 2, le_bytes_u16 0)
    ∷ (2, le_bytes_u16 (live_count page - 1))
    ∷ []

pub after_free : SlottedPage → ℕ → SlottedPage
after_free page k = write_fields (free_list page k) page

ruleset free_laws = (arith, length-le_bytes_u16)

-- One entry turns from live to dead.
pub count_live_less :
    (n k : ℕ) (page page' : SlottedPage)
    → k < n
    → offset_at page k ≢ tombstone_off
    → offset_at page' k ≡ tombstone_off
    → ((i : ℕ) → i < n → i ≢ k → offset_at page' i ≡ offset_at page i)
    → count_live n page' + 1 ≡ count_live n page
unfolding count_live
count_live_less zero k page page' lt live dead same = absurd (omega arith)
count_live_less (suc n) k page page' lt live dead same = elim (Bool-cases (k == n)) [
  | inl here ↦
      ground (arith, count_live_same n page page' (λ i below. same i (omega arith) (ground arith)))
  | inr other ↦ ground (
    arith,
    same n (omega arith) (ground arith),
    count_live_less n k page page' (ground arith) live dead (λ i below. same i (omega arith)),
  )
]

entry_read-dead :
    (page : SlottedPage) (i : ℕ)
    → offset_at page i ≡ tombstone_off
    → entry_read page i ≡ err property_slot_freed
unfolding entry_read
entry_read-dead page i e = ground arith

module _ (page : SlottedPage) (k : ℕ) (v : IsSlotted page) (lt : k < slot_count page) where
  abbrev pub after : SlottedPage
  after = after_free page k

  small_count : slot_count page ≤ 1023
  small_count = omega arith

  pub after_size : length after ≡ page_size
  unfolding after_free
  after_size = length-write_fields (free_list page k) page ∙ v.size

  pub slot_count-after : slot_count after ≡ slot_count page
  unfolding after_free slot_count
  slot_count-after =
      ap from_le_bytes (slice-write_fields-Apart 0 2 (free_list page k) page (omega free_laws))

  pub live_count-after : live_count after ≡ live_count page - 1
  unfolding after_free live_count
  live_count-after =
      ap from_le_bytes (
        slice-write_fields 2 (free_list page k) page refl (length-le_bytes_u16 _) (omega arith)
          (omega free_laws))
      ∙ from_le_bytes-le_bytes_u16 _
          (omega (arith, v.counted, count_live-le (slot_count page) page))

  pub offset_at-after_self : offset_at after k ≡ tombstone_off
  unfolding after_free word_at
  offset_at-after_self =
      ap from_le_bytes (
        slice-write_fields 0 (free_list page k) page refl (length-le_bytes_u16 _) (omega arith)
          (omega free_laws))
      ∙ from_le_bytes-le_bytes_u16 _ (omega arith)

  word_at-after_ne :
      (off : ℕ)
      → 4 ≤ off
      → (off + 2 ≤ dir_offset k) ⊎ (dir_offset k + 4 ≤ off)
      → word_at after off ≡ word_at page off
  unfolding after_free word_at
  word_at-after_ne off lo apart = ap from_le_bytes (
      slice-write_fields-Apart off 2 (free_list page k) page
        (elim apart [ inl h ↦ omega free_laws | inr h ↦ omega free_laws ]))

  after_in_range : IsBytes after
  unfolding after_free
  after_in_range =
      write_fields-IsBytes (free_list page k) page
        (le_bytes_u16-IsBytes _, (le_bytes_u16-IsBytes _, (le_bytes_u16-IsBytes _, tt))) v.in_range

  slice-after :
      (off n : ℕ)
      → header_size + slot_count page * slot_entry_size ≤ off
      → slice off n after ≡ slice off n page
  unfolding after_free
  slice-after off n lo = slice-write_fields-Apart off n (free_list page k) page (omega free_laws)

  offset_at-after_ne : (i : ℕ) → i ≢ k → offset_at after i ≡ offset_at page i
  offset_at-after_ne i ne = word_at-after_ne (dir_offset i) (omega arith) (entry_apart i ne)
    where
      entry_apart :
          (i : ℕ) → i ≢ k → (dir_offset i + 2 ≤ dir_offset k) ⊎ (dir_offset k + 4 ≤ dir_offset i)
      entry_apart i ne = ground arith

  length_at-after_ne : (i : ℕ) → i ≢ k → length_at after i ≡ length_at page i
  length_at-after_ne i ne = word_at-after_ne (dir_offset i + 2) (omega arith) (entry_apart i ne)
    where
      entry_apart :
          (i : ℕ)
          → i ≢ k
          → (dir_offset i + 2 + 2 ≤ dir_offset k) ⊎ (dir_offset k + 4 ≤ dir_offset i + 2)
      entry_apart i ne = ground arith

  entries-after : (i : ℕ) → i < slot_count after → EntryFits after i
  entries-after i below = elim (Bool-cases (i == k)) [
    | inl here ↦ inl (ground (arith, offset_at-after_self))
    | inr other ↦ ground (
      arith,
      slot_count-after,
      offset_at-after_ne i (ground arith),
      length_at-after_ne i (ground arith),
      v.entries i,
    )
  ]

  pub live_less :
      offset_at page k ≢ tombstone_off
      → count_live (slot_count page) after + 1 ≡ count_live (slot_count page) page
  live_less live =
      count_live_less (slot_count page) k page after lt live offset_at-after_self
        (λ i below ne. offset_at-after_ne i ne)

  pub after-IsSlotted : offset_at page k ≢ tombstone_off → IsSlotted after
  after-IsSlotted live = record {
    size = after_size;
    in_range = after_in_range;
    room = omega (arith, slot_count-after);
    entries = entries-after;
    counted =
        live_count-after
        ∙ ap (λ (n : ℕ). n - 1) v.counted
        ∙ (let less = live_less live in omega arith)
        ∙ ap (λ (n : ℕ). count_live n after) (sym slot_count-after);
  }

  entry_read-after_ne :
      (i : ℕ) → i < slot_count page → i ≢ k → entry_read after i ≡ entry_read page i
  unfolding entry_read
  entry_read-after_ne i below ne = elim (v.entries i below) [
    | inl dead ↦ ground (arith, offset_at-after_ne i ne)
    | inr (lo, hi) ↦ ground (
      arith,
      offset_at-after_ne i ne,
      length_at-after_ne i ne,
      slice-after (offset_at page i) (length_at page i) lo,
    )
  ]

  pub read-after_ne :
      (i : ℕ) → i < slot_count page → i ≢ k → read_property after i ≡ read_property page i
  read-after_ne i below ne =
      read_property_lem after i after_size (omega (arith, slot_count-after)) (omega arith)
      ∙ entry_read-after_ne i below ne
      ∙ sym (read_property_lem page i v.size below (omega arith))

  pub read-after_self : read_property after k ≡ err property_slot_freed
  read-after_self =
      read_property_lem after k after_size (omega (arith, slot_count-after)) (omega arith)
      ∙ entry_read-dead after k offset_at-after_self

  p1 : SlottedPage
  p1 = patch (dir_offset k) (le_bytes_u16 tombstone_off) page

  length-p1 : length p1 ≡ page_size
  unfolding p1
  length-p1 = length-patch (dir_offset k) (le_bytes_u16 tombstone_off) page ∙ v.size

  live_count-p2 : live_count (patch (dir_offset k + 2) (le_bytes_u16 0) p1) ≡ live_count page
  unfolding p1 live_count write_fields
  live_count-p2 = ap from_le_bytes (
      slice-write_fields-Apart 2 2
        ((dir_offset k, le_bytes_u16 tombstone_off) ∷ (dir_offset k + 2, le_bytes_u16 0) ∷ []) page
        (omega free_laws))

  pub free_slot-after : offset_at page k ≢ tombstone_off → free_slot page k ≡ ok after
  unfolding free_slot after_free write_fields set_live_count p1
  free_slot-after live =
      let within : leb (slot_count page) k ≡ false = ground arith in
      let read = read_u16_ok page (dir_offset k) (omega (arith, v.size)) in
      let alive : (offset_at page k == tombstone_off) ≡ false = ground arith in
      let first =
        checked_patch_ok (dir_offset k) (le_bytes_u16 tombstone_off) page
          (omega (arith, v.size, length-le_bytes_u16)) in
      let second =
        checked_patch_ok (dir_offset k + 2) (le_bytes_u16 0) p1
          (omega (arith, length-p1, length-le_bytes_u16)) in
      rw (within, read) (rw (alive, first, second, live_count-p2))
