-- ===== src/Storage/Page/Slots.antt =====
-- The slots' contents: `write_slot`, `read_slot`, and what the bitmap operations leave alone.
use chiffondb.Prelude.{
  ltb, ltb→lt, ltb_false→le, err, storage_corrupted, length-set, ◌%◌, ℕ, ◌+◌, ◌*◌, ◌/◌, ◌≤◌, ◌<◌,
  ◌≡◌, ◌≢◌, ◌⊎◌, inl, inr, ap, ◌∙◌, sym, Bool, true, false, List, length, arith, leb, Bool-cases,
  leb_false→lt, ok, get_or,
}
use chiffondb.Bytes.Slices.{
  slice, patch, checked_slice_ok, checked_patch_ok, slice-patch_self, slice-patch_apart,
  get_or-patch_below, slice-set_below, length-patch, All-patch,
}
use chiffondb.Bytes.Words.{IsBytes, IsByte}
use chiffondb.Storage.Page.{
  Page, IsPage, bitmap_bytes, is_used, set_bit, set_bitmap, alloc_slot, free_slot, slot_offset,
  write_slot, read_slot,
}
use chiffondb.Storage.Page.Bitmap.{alloc_slot_cases}

slot_below : (i j s : ℕ) → i < j → i * s + s ≤ j * s
slot_below i j s h = grind arith

-- Slots do not overlap.
slots_apart : (a i j s : ℕ) → i ≢ j → (a + i * s + s ≤ a + j * s) ⊎ (a + j * s + s ≤ a + i * s)
slots_apart a i j s ne = elim (Bool-cases (ltb i j)) [
  | inl lt ↦ inl (omega (arith, slot_below i j s (ltb→lt _ _ lt)))
  | inr ge ↦ inr (omega (arith, slot_below j i s (omega (arith, ltb_false→le _ _ ge))))
]

slot_fits :
    (p : Page) (i : ℕ)
    → IsPage p
    → i < p.slot_count
    → slot_offset p i + p.slot_size ≤ length p.bytes
slot_fits p i v h = grind arith

-- In a well-formed page every slot below the count is read, and none panics.
pub read_slot_lem :
    (p : Page) (i : ℕ)
    → IsPage p
    → i < p.slot_count
    → read_slot p i ≡ ok (slice (slot_offset p i) p.slot_size p.bytes)
unfolding read_slot
read_slot_lem p i v h =
    ground (arith, checked_slice_ok (slot_offset p i) p.slot_size p.bytes (slot_fits p i v h))

written : Page → ℕ → List ℕ → Page
written p i content = record p { bytes = patch (slot_offset p i) content p.bytes }

write_slot_lem :
    (p : Page) (i : ℕ) (content : List ℕ)
    → IsPage p
    → i < p.slot_count
    → length content ≡ p.slot_size
    → write_slot p i content ≡ ok (written p i content)
unfolding write_slot written
write_slot_lem p i content v h e =
    ground (arith, checked_patch_ok (slot_offset p i) content p.bytes, slot_fits p i v h)

module _ (p : Page) (i : ℕ) (content : List ℕ) (v : IsPage p) (h : i < p.slot_count)
    (e : length content ≡ p.slot_size) (fits : IsBytes content) where
  written-IsPage : IsPage (written p i content)
  unfolding written
  written-IsPage = record {
    size = length-patch (slot_offset p i) content p.bytes ∙ v.size;
    in_range = All-patch IsByte (slot_offset p i) content p.bytes fits v.in_range;
    room = v.room;
  }

  read_slot-written_self : read_slot (written p i content) i ≡ ok content
  unfolding written
  read_slot-written_self =
      read_slot_lem (written p i content) i written-IsPage h
      ∙ ap ok (
          ap (λ (n : ℕ). slice (slot_offset p i) n (patch (slot_offset p i) content p.bytes))
            (sym e)
          ∙ slice-patch_self (slot_offset p i) content p.bytes (omega (arith, slot_fits p i v h)))

  read_slot-written_ne : (j : ℕ) → i ≢ j → read_slot (written p i content) j ≡ read_slot p j
  unfolding written
  read_slot-written_ne j ne = elim (Bool-cases (leb p.slot_count j)) [
    | inl out ↦ unfold read_slot in rw out
    | inr within ↦
        read_slot_lem (written p i content) j written-IsPage (leb_false→lt _ _ within)
        ∙ ap ok (
            slice-patch_apart (slot_offset p j) p.slot_size (slot_offset p i) content p.bytes
              (rw e (slots_apart (bitmap_bytes p.slot_count) j i p.slot_size (λ q. ne (sym q)))))
        ∙ sym (read_slot_lem p j v (leb_false→lt _ _ within))
  ]

  is_used-written : (j : ℕ) → is_used (written p i content) j ≡ is_used p j
  unfolding is_used written
  is_used-written j = ground (arith, get_or-patch_below (slot_offset p i) (j / 8) content p.bytes 0)

-- On a well-formed page a write to a slot succeeds; the slot then reads as written, the other
-- slots and the bitmap are as before, and the page stays well formed.
pub write_slot_effect :
    (p : Page) (i : ℕ) (content : List ℕ)
    → IsPage p
    → i < p.slot_count
    → length content ≡ p.slot_size
    → IsBytes content
    → (p' : Page) × (write_slot p i content ≡ ok p')
      × IsPage p'
      × (read_slot p' i ≡ ok content)
      × ((j : ℕ) → i ≢ j → read_slot p' j ≡ read_slot p j)
      × ((j : ℕ) → is_used p' j ≡ is_used p j)
write_slot_effect p i content v h e fits = (
  written p i content,
  write_slot_lem p i content v h e,
  written-IsPage p i content v h e fits,
  read_slot-written_self p i content v h e fits,
  read_slot-written_ne p i content v h e fits,
  is_used-written p i content v h e fits,
)

-- A write of the wrong length or to a slot out of range is refused.
pub write_slot_refused :
    (p : Page) (i : ℕ) (content : List ℕ)
    → (length content ≢ p.slot_size) ⊎ (p.slot_count ≤ i)
    → write_slot p i content ≡ err (storage_corrupted 0)
unfolding write_slot
write_slot_refused p i content h = ground arith

read_slot-set_bitmap :
    (p : Page) (k : ℕ) (used : Bool) (j : ℕ)
    → k < p.slot_count
    → read_slot (set_bitmap p k used) j ≡ read_slot p j
unfolding read_slot set_bitmap
read_slot-set_bitmap p k used j h = ground (
  arith,
  length-set p.bytes (k / 8) (set_bit (get_or p.bytes (k / 8) 0) (k % 8) used),
  slice-set_below (slot_offset p j) p.slot_size (k / 8) p.bytes
      (set_bit (get_or p.bytes (k / 8) 0) (k % 8) used),
)

-- Allocating a slot changes the contents of none.
pub read_slot-alloc_slot : (p : Page) (j : ℕ) → read_slot (alloc_slot p).1 j ≡ read_slot p j
read_slot-alloc_slot p j = elim (alloc_slot_cases p) [
  | inl (full, q) ↦ rw q
  | inr (m, lt, first, q) ↦ rw q (read_slot-set_bitmap p m true j lt)
]

-- Nor does freeing one.
pub read_slot-free_slot :
    (p p' : Page) (k j : ℕ) → free_slot p k ≡ ok p' → read_slot p' j ≡ read_slot p j
unfolding free_slot
read_slot-free_slot p p' k j e = elim (Bool-cases (leb p.slot_count k)) [
  | inl out ↦ cc (rw out at e)
  | inr within ↦ ground (arith, read_slot-set_bitmap p k false j (leb_false→lt _ _ within))
]
