-- ===== src/Storage/Slotted/Released.antt =====
-- The effect of `free_slot` on a well-formed page.
use chiffondb.Prelude.{
  leb_false→lt, ℕ, ◌+◌, ◌*◌, ◌≤◌, ◌<◌, ◌≡◌, ◌≢◌, inl, inr, length, arith, leb, ◌==◌, ok, err,
  property_slot_freed, Bool-cases,
}
use chiffondb.Storage.Page.{page_size}
use chiffondb.Storage.Slotted.{
  SlottedPage, slot_count, live_count, dir_offset, free_slot, read_property, tombstone_off,
  header_size, slot_entry_size,
}
use chiffondb.Storage.Slotted.View.{IsSlotted, offset_at, read_u16_ok}
use chiffondb.Storage.Slotted.Frees.{
  after_free, free_slot-after, after-IsSlotted, read-after_self, read-after_ne, slot_count-after,
  live_less, live_count-after, after_size, offset_at-after_self,
}

-- Freeing a live slot of a well-formed page succeeds: the slot then reads as freed, every other
-- slot reads as before, the live count goes down by one, the slot count stays, and the page stays
-- well formed.
pub free_slot_effect :
    (page : SlottedPage) (k : ℕ)
    → IsSlotted page
    → k < slot_count page
    → offset_at page k ≢ tombstone_off
    → (page' : SlottedPage) × (free_slot page k ≡ ok page')
      × IsSlotted page'
      × (read_property page' k ≡ err property_slot_freed)
      × ((i : ℕ) → i < slot_count page → i ≢ k → read_property page' i ≡ read_property page i)
      × (slot_count page' ≡ slot_count page)
      × (live_count page' + 1 ≡ live_count page)
free_slot_effect page k v lt live = (
  after_free page k,
  free_slot-after page k v lt live,
  after-IsSlotted page k v lt live,
  read-after_self page k v lt,
  read-after_ne page k v lt,
  slot_count-after page k v lt,
  omega (arith, live_less page k v lt live, v.counted, live_count-after page k v lt),
)

free_slot-dead :
    (page : SlottedPage) (k : ℕ)
    → length page ≡ page_size
    → k < slot_count page
    → header_size + slot_count page * slot_entry_size ≤ page_size
    → offset_at page k ≡ tombstone_off
    → free_slot page k ≡ ok page
unfolding free_slot
free_slot-dead page k s lt room dead = ground (arith, read_u16_ok page (dir_offset k))

-- Freeing a slot twice is freeing it once: a freed slot is left as it is.
pub free_slot_again :
    (page page' : SlottedPage) (k : ℕ)
    → IsSlotted page
    → free_slot page k ≡ ok page'
    → free_slot page' k ≡ ok page'
free_slot_again page page' k v e = elim (Bool-cases (leb (slot_count page) k)) [
  | inl out ↦ unfold free_slot in cc (rw out at e)
  | inr within ↦
      let lt : k < slot_count page = leb_false→lt _ _ within in
      elim (Bool-cases (offset_at page k == tombstone_off)) [
        | inl dead ↦
            let run = free_slot-dead page k v.size lt v.room (ground arith) in
            let same : page ≡ page' = cc in rw (← same) run
        | inr live ↦
            let run = free_slot-after page k v lt (ground arith) in
            let same : after_free page k ≡ page' = cc in
            rw (← same) (
              free_slot-dead (after_free page k) k (after_size page k v lt)
                (omega (arith, slot_count-after page k v lt))
                (omega (arith, v.room, slot_count-after page k v lt))
                (offset_at-after_self page k v lt))
      ]
]
