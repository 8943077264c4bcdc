-- ===== src/Storage/Slotted/Writes.antt =====
-- `write_property` on a well-formed page.
use chiffondb.Prelude.{
  ℕ, ◌+◌, ◌-◌, ◌%◌, ◌≤◌, ◌<◌, ◌≡◌, refl, ap, ◌∙◌, false, List, [], ◌∷◌, length, arith, ltb, ok,
}
use chiffondb.Bytes.Slices.{slice, patch, checked_patch_ok, length-patch}
use chiffondb.Bytes.Words.{
  IsBytes, le_bytes_u16, from_le_bytes, length-le_bytes_u16, le_bytes_u16-IsBytes,
  from_le_bytes-le_bytes_u16,
}
use chiffondb.Bytes.Layout.{
  Field, write_fields, length-write_fields, slice-write_fields, slice-write_fields-Apart,
  write_fields-IsBytes,
}
use chiffondb.Storage.Page.{page_size}
use chiffondb.Storage.Slotted.{
  SlottedPage, slot_count, live_count, set_slot_count, set_live_count, dir_offset, data_end,
  write_property,
}
use chiffondb.Storage.Slotted.View.{IsSlotted, word_at, offset_at, length_at, count_live-le}

-- The five writes of `write_property`, `value` at `start`.
abbrev write_list : SlottedPage → ℕ → List ℕ → List Field
write_list page start value =
    (start, value)
    ∷ (dir_offset (slot_count page), le_bytes_u16 start)
    ∷ (dir_offset (slot_count page) + 2, le_bytes_u16 (length value))
    ∷ (0, le_bytes_u16 (slot_count page + 1))
    ∷ (2, le_bytes_u16 (live_count page + 1))
    ∷ []

after_write : SlottedPage → ℕ → List ℕ → SlottedPage
after_write page start value = write_fields (write_list page start value) page

ruleset write_laws = (arith, length-le_bytes_u16)

module _ (page : SlottedPage) (start : ℕ) (value : List ℕ) (v : IsSlotted page)
    (above : dir_offset (slot_count page + 1) ≤ start)
    (fits : start + length value ≤ page_size) where
  small_count : slot_count page < 1023
  small_count = omega arith

  small_live : live_count page < 1023
  small_live = omega (arith, count_live-le (slot_count page) page)

  pub after : SlottedPage
  after = after_write page start value

  pub after_size : length after ≡ page_size
  unfolding after after_write
  after_size = length-write_fields (write_list page start value) page ∙ v.size

  pub slot_count-after : slot_count after ≡ slot_count page + 1
  unfolding after after_write slot_count
  slot_count-after =
      ap from_le_bytes (
        slice-write_fields 3 (write_list page start value) page refl (length-le_bytes_u16 _)
          (omega arith) (omega write_laws))
      ∙ from_le_bytes-le_bytes_u16 _ (omega arith)

  pub live_count-after : live_count after ≡ live_count page + 1
  unfolding after after_write live_count
  live_count-after =
      ap from_le_bytes (
        slice-write_fields 4 (write_list page start value) page refl (length-le_bytes_u16 _)
          (omega arith) (omega write_laws))
      ∙ from_le_bytes-le_bytes_u16 _ (omega (arith, small_live))

  pub offset_at-after_new : offset_at after (slot_count page) ≡ start
  unfolding after after_write word_at
  offset_at-after_new =
      ap from_le_bytes (
        slice-write_fields 1 (write_list page start value) page refl (length-le_bytes_u16 _)
          (omega arith) (omega write_laws))
      ∙ from_le_bytes-le_bytes_u16 _ (omega arith)

  pub length_at-after_new : length_at after (slot_count page) ≡ length value
  unfolding after after_write word_at
  length_at-after_new =
      ap from_le_bytes (
        slice-write_fields 2 (write_list page start value) page refl (length-le_bytes_u16 _)
          (omega arith) (omega write_laws))
      ∙ from_le_bytes-le_bytes_u16 _ (omega arith)

  -- A word of the directory below the new entry.
  pub word_at-after_old :
      (off : ℕ)
      → 4 ≤ off
      → off + 2 ≤ dir_offset (slot_count page)
      → word_at after off ≡ word_at page off
  unfolding after after_write word_at
  word_at-after_old off lo hi =
      ap from_le_bytes
        (slice-write_fields-Apart off 2 (write_list page start value) page (omega write_laws))

  pub slice-after-value : slice start (length value) after ≡ value
  unfolding after after_write
  slice-after-value =
      slice-write_fields 0 (write_list page start value) page refl refl (omega arith)
        (omega write_laws)

  -- The bytes between the directory and the new value's start, and those behind its end, stay.
  pub slice-after_old :
      (off n : ℕ) → start + length value ≤ off → slice off n after ≡ slice off n page
  unfolding after after_write
  slice-after_old off n lo =
      slice-write_fields-Apart off n (write_list page start value) page (omega write_laws)

  p1 : SlottedPage
  p1 = patch start value page

  p2 : SlottedPage
  p2 = patch (dir_offset (slot_count page)) (le_bytes_u16 start) p1

  p3 : SlottedPage
  p3 = patch (dir_offset (slot_count page) + 2) (le_bytes_u16 (length value)) p2

  length-p1 : length p1 ≡ page_size
  unfolding p1
  length-p1 = length-patch start value page ∙ v.size

  length-p2 : length p2 ≡ page_size
  unfolding p2
  length-p2 = length-patch (dir_offset (slot_count page)) (le_bytes_u16 start) p1 ∙ length-p1

  live_count-p4 : live_count (set_slot_count (slot_count page + 1) p3) ≡ live_count page
  unfolding p1 p2 p3 live_count set_slot_count write_fields
  live_count-p4 = ap from_le_bytes (
      slice-write_fields-Apart 2 2
        ((start, value)
          ∷ (dir_offset (slot_count page), le_bytes_u16 start)
          ∷ (dir_offset (slot_count page) + 2, le_bytes_u16 (length value))
          ∷ (0, le_bytes_u16 (slot_count page + 1))
          ∷ [])
        page (omega write_laws))

  pub write_property-after :
      (end : ℕ)
      → data_end page ≡ ok end
      → start + length value ≡ end
      → write_property page value ≡ ok (slot_count page, after)
  unfolding write_property after after_write write_fields set_live_count p1 p2 p3
  write_property-after end e sum =
      let start_eq : end - length value ≡ start = omega arith in
      let c : (slot_count page + 1) % 65536 ≡ slot_count page + 1 = omega arith in
      let l : (live_count page + 1) % 65536 ≡ live_count page + 1 = omega (arith, small_live) in
      let room : ltb end (dir_offset (slot_count page + 1) + length value) ≡ false = ground arith in
      let first = checked_patch_ok start value page (omega arith) in
      let second =
        checked_patch_ok (dir_offset (slot_count page)) (le_bytes_u16 start) p1
          (omega (arith, length-p1, length-le_bytes_u16)) in
      let third =
        checked_patch_ok (dir_offset (slot_count page) + 2) (le_bytes_u16 (length value)) p2
          (omega (arith, length-p2, length-le_bytes_u16)) in
      rw (e, write_property)
        (rw (room, start_eq, first, second, third, c, live_count-p4, l)
          (unfold set_slot_count in refl))

  pub after_in_range : IsBytes value → IsBytes after
  unfolding after after_write
  after_in_range b =
      write_fields-IsBytes (write_list page start value) page
        (
          b,
          (
            le_bytes_u16-IsBytes _,
            (le_bytes_u16-IsBytes _, (le_bytes_u16-IsBytes _, (le_bytes_u16-IsBytes _, tt))),
          ),
        )
        v.in_range
