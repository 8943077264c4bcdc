-- ===== src/Storage/Slotted/Appends.antt =====
-- The effect of `write_property` on a well-formed page, and when it is refused or panics.
use chiffondb.Prelude.{
  ltb_false→le, ℕ, ◌+◌, ◌-◌, ◌≤◌, ◌<◌, ◌≡◌, ◌⊎◌, inl, inr, ap, sym, ◌∙◌, List, length, arith, ltb,
  ok, err, panic, storage_corrupted, Bool-cases,
}
use chiffondb.Bytes.Words.{IsBytes}
use chiffondb.Storage.Page.{page_size}
use chiffondb.Storage.Slotted.{
  SlottedPage, slot_count, live_count, dir_offset, data_end, write_property, read_property,
  tombstone_off,
}
use chiffondb.Storage.Slotted.View.{
  all_dead, count_live_step, IsSlotted, EntryFits, offset_at, length_at, count_live,
  count_live_same, data_end_ok, data_end-le,
}
use chiffondb.Storage.Slotted.Reads.{entry_read, read_property_lem}
use chiffondb.Storage.Slotted.Writes

module _ (page : SlottedPage) (start : ℕ) (value : List ℕ) (v : IsSlotted page)
    (above : dir_offset (slot_count page + 1) ≤ start) (fits : start + length value ≤ page_size)
    (least : (j : ℕ) → j < slot_count page → start + length value ≤ offset_at page j) where
  abbrev after : SlottedPage
  after = Writes.after page start value v above fits

  offset_at-after : (i : ℕ) → i < slot_count page → offset_at after i ≡ offset_at page i
  offset_at-after i lt =
      Writes.word_at-after_old page start value v above fits (dir_offset i) (omega arith)
        (omega arith)

  length_at-after : (i : ℕ) → i < slot_count page → length_at after i ≡ length_at page i
  length_at-after i lt =
      Writes.word_at-after_old page start value v above fits (dir_offset i + 2) (omega arith)
        (omega arith)

  entries-after : (i : ℕ) → i < slot_count after → EntryFits after i
  entries-after i lt = elim (Bool-cases (ltb i (slot_count page))) [
    | inl old ↦ ground (
      arith,
      Writes.slot_count-after page start value v above fits,
      offset_at-after i,
      length_at-after i,
      v.entries i,
      least i,
    )
    | inr new ↦
        let last : i ≡ slot_count page =
          omega
            (arith, Writes.slot_count-after page start value v above fits, ltb_false→le _ _ new) in
        rw last (
          inr (
            omega (
              arith,
              Writes.slot_count-after page start value v above fits,
              Writes.offset_at-after_new page start value v above fits,
            ),
            omega (
              arith,
              Writes.offset_at-after_new page start value v above fits,
              Writes.length_at-after_new page start value v above fits,
            ),
          ))
  ]

  counted-after : live_count after ≡ count_live (slot_count after) after
  counted-after =
      Writes.live_count-after page start value v above fits
      ∙ ap (λ (n : ℕ). n + 1)
          (v.counted ∙ sym (count_live_same (slot_count page) page after offset_at-after))
      ∙ sym (
          ap (λ (n : ℕ). count_live n after)
            (Writes.slot_count-after page start value v above fits ∙ omega arith)
          ∙ count_live_step (slot_count page) after
              (ground (arith, Writes.offset_at-after_new page start value v above fits)))

  after-IsSlotted : IsBytes value → IsSlotted after
  after-IsSlotted b = record {
    size = Writes.after_size page start value v above fits;
    in_range = Writes.after_in_range page start value v above fits b;
    room = omega (arith, Writes.slot_count-after page start value v above fits);
    entries = entries-after;
    counted = counted-after;
  }

  read-after_new : read_property after (slot_count page) ≡ ok value
  read-after_new =
      read_property_lem after (slot_count page) (Writes.after_size page start value v above fits)
        (omega (arith, Writes.slot_count-after page start value v above fits)) (omega arith)
      ∙ unfold entry_read in
        ground (
          arith,
          Writes.offset_at-after_new page start value v above fits,
          Writes.length_at-after_new page start value v above fits,
          Writes.slice-after-value page start value v above fits,
        )

  entry_read-after_old : (i : ℕ) → i < slot_count page → entry_read after i ≡ entry_read page i
  unfolding entry_read
  entry_read-after_old i lt = ground (
    arith,
    offset_at-after i lt,
    length_at-after i lt,
    Writes.slice-after_old page start value v above fits (offset_at page i) (length_at page i)
        (least i lt),
  )

  read-after_old : (i : ℕ) → i < slot_count page → read_property after i ≡ read_property page i
  read-after_old i lt =
      read_property_lem after i (Writes.after_size page start value v above fits)
        (omega (arith, Writes.slot_count-after page start value v above fits)) (omega arith)
      ∙ entry_read-after_old i lt
      ∙ sym (read_property_lem page i v.size lt (omega arith))

-- On a well-formed page that has no slot or a live one, a value of bytes that fits below the data
-- area gets the next slot: it is read back from there, every older slot reads as before, both
-- counters go up by one, and the page stays well formed.
pub write_property_effect :
    (page : SlottedPage) (value : List ℕ) (end : ℕ)
    → IsSlotted page
    → IsBytes value
    → (slot_count page ≡ 0) ⊎ (0 < live_count page)
    → data_end page ≡ ok end
    → dir_offset (slot_count page + 1) + length value ≤ end
    → (page' : SlottedPage) × (write_property page value ≡ ok (slot_count page, page'))
      × IsSlotted page'
      × (read_property page' (slot_count page) ≡ ok value)
      × ((i : ℕ) → i < slot_count page → read_property page' i ≡ read_property page i)
      × (slot_count page' ≡ slot_count page + 1)
      × (live_count page' ≡ live_count page + 1)
write_property_effect page value end v b some_live run room =
    let (e, run', bound, least) = data_end-le page v some_live in
    let same : e ≡ end = cc in
    let above : dir_offset (slot_count page + 1) ≤ end - length value = omega arith in
    let fits : end - length value + length value ≤ page_size = omega arith in
    let below : (j : ℕ)
        → j < slot_count page
        → end - length value + length value ≤ offset_at page j =
      λ j lt. omega (arith, least j lt) in
    let start : ℕ = end - length value in
    (
      Writes.after page start value v above fits,
      Writes.write_property-after page start value v above fits end run (omega arith),
      after-IsSlotted page start value v above fits below b,
      read-after_new page start value v above fits below,
      read-after_old page start value v above fits below,
      Writes.slot_count-after page start value v above fits,
      Writes.live_count-after page start value v above fits,
    )

-- Where the next directory entry and the value do not fit below the data area, the write is
-- refused and nothing is written.
pub write_property_refused :
    (page : SlottedPage) (value : List ℕ) (end : ℕ)
    → data_end page ≡ ok end
    → end < dir_offset (slot_count page + 1) + length value
    → write_property page value ≡ err (storage_corrupted 0)
unfolding write_property
write_property_refused page value end run short = ground arith

-- A page on which every slot is freed takes no more values: where the arithmetic test lets the
-- value through, the write panics, since the end of the data area is read as 0xFFFF.
pub write_property_all_freed :
    (page : SlottedPage) (value : List ℕ)
    → IsSlotted page
    → 0 < slot_count page
    → live_count page ≡ 0
    → length value ≤ page_size
    → write_property page value ≡ panic
unfolding write_property
write_property_all_freed page value v some dead small =
    let (end, run, least, empty, const) = data_end_ok page v.size v.room in
    let far : end ≡ tombstone_off = const tombstone_off some (all_dead page v dead) in
    ground (arith, v.size)
