-- ===== src/Storage/Slotted/Fresh.antt =====
-- A page made by `SlottedPage::new`.
use chiffondb.Prelude.{
  ℕ, ◌≡◌, refl, ap, ◌∙◌, List, [], ◌∷◌, length, replicate, All-replicate, arith,
}
use chiffondb.Bytes.Words.{
  IsByte, IsBytes, le_bytes_u16, le_bytes_u16-IsBytes, from_le_bytes, length-le_bytes_u16,
  from_le_bytes-le_bytes_u16,
}
use chiffondb.Bytes.Layout.{
  Field, write_fields, length-write_fields, slice-write_fields, write_fields-IsBytes, length-zeros,
}
use chiffondb.Storage.Page.{page_size}
use chiffondb.Storage.Slotted.{new, slot_count, live_count, set_slot_count, set_live_count}
use chiffondb.Storage.Slotted.View.{IsSlotted, count_live}

abbrev fields : List Field
fields = (0, le_bytes_u16 0) ∷ (2, le_bytes_u16 0) ∷ []

slot_count-new : slot_count new ≡ 0
unfolding new slot_count set_slot_count set_live_count write_fields
slot_count-new =
    ap from_le_bytes (
      slice-write_fields 0 fields (replicate page_size 0) refl (length-le_bytes_u16 0)
        (omega (arith, length-zeros page_size)) (omega (arith, length-le_bytes_u16)))
    ∙ from_le_bytes-le_bytes_u16 0 (omega arith)

live_count-new : live_count new ≡ 0
unfolding new live_count set_slot_count set_live_count write_fields
live_count-new =
    ap from_le_bytes (
      slice-write_fields 1 fields (replicate page_size 0) refl (length-le_bytes_u16 0)
        (omega (arith, length-zeros page_size)) tt)
    ∙ from_le_bytes-le_bytes_u16 0 (omega arith)

length-new : length new ≡ page_size
unfolding new set_slot_count set_live_count write_fields
length-new = length-write_fields fields (replicate page_size 0) ∙ length-zeros page_size

new_in_range : IsBytes new
unfolding new set_slot_count set_live_count write_fields
new_in_range =
    write_fields-IsBytes fields (replicate page_size 0)
      (le_bytes_u16-IsBytes 0, (le_bytes_u16-IsBytes 0, tt))
      (All-replicate IsByte page_size 0 (omega arith))

count_live-new : count_live (slot_count new) new ≡ 0
count_live-new = ap (λ (n : ℕ). count_live n new) slot_count-new ∙ (unfold count_live in refl)

-- A new page is well formed and has no slot.
pub new-IsSlotted : IsSlotted new × (slot_count new ≡ 0) × (live_count new ≡ 0)
new-IsSlotted = (
  record {
    size = length-new;
    in_range = new_in_range;
    room = omega (arith, slot_count-new);
    entries = λ i lt. absurd (omega (arith, slot_count-new));
    counted = omega (arith, live_count-new, count_live-new);
  },
  slot_count-new,
  live_count-new,
)
