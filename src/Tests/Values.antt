-- ===== src/Tests/Values.antt =====
-- storage/property.rs: slotted pages and blob chains.
use chiffondb.Prelude.{
  ap, Bool, ◌*◌, ℕ, ◌+◌, ◌≤◌, ◌<◌, ◌≡◌, ◌≢◌, ◌↔◌, inl, ◌∙◌, List, [], ◌∷◌, length, replicate,
  length-replicate, ok, err, panic, storage_corrupted, property_slot_freed, arith, true,
}
use chiffondb.Storage.Slotted
use chiffondb.Storage.Slotted.{
  SlottedPage, data_end, slot_count, live_count, write_property, free_slot, read_property, is_valid,
}
use chiffondb.Storage.Slotted.View
use chiffondb.Storage.Slotted.View.{IsSlotted}
use chiffondb.Storage.Slotted.Fresh.{new-IsSlotted}
use chiffondb.Storage.Slotted.Reads
use chiffondb.Storage.Slotted.Appends
use chiffondb.Storage.Slotted.Released
use chiffondb.Storage.Blob
use chiffondb.Storage.Blob.{write_blob_chain, read_blob_chain}
use chiffondb.Storage.Blob.RoundTrip
use chiffondb.Storage.Blob.Hostile

abbrev value : List ℕ
value = 7 ∷ 8 ∷ 9 ∷ []

data_end-new : data_end Slotted.new ≡ ok 4096
unfolding data_end
data_end-new = ground (arith, new-IsSlotted.1)

-- A value written to a new page.
first_write :
    (page' : SlottedPage) × (write_property Slotted.new value ≡ ok (slot_count Slotted.new, page'))
    × IsSlotted page'
    × (read_property page' (slot_count Slotted.new) ≡ ok value)
    × ((i : ℕ) → i < slot_count Slotted.new → read_property page' i ≡ read_property Slotted.new i)
    × (slot_count page' ≡ slot_count Slotted.new + 1)
    × (live_count page' ≡ live_count Slotted.new + 1)
first_write =
    Appends.write_property_effect Slotted.new value 4096 (new-IsSlotted.0) (omega arith)
      (inl (new-IsSlotted.1)) data_end-new (omega (arith, new-IsSlotted.1))

write_property_effect_example :
    (page' : SlottedPage) × (write_property Slotted.new value ≡ ok (slot_count Slotted.new, page'))
    × IsSlotted page'
    × (read_property page' (slot_count Slotted.new) ≡ ok value)
    × ((i : ℕ) → i < slot_count Slotted.new → read_property page' i ≡ read_property Slotted.new i)
    × (slot_count page' ≡ slot_count Slotted.new + 1)
    × (live_count page' ≡ live_count Slotted.new + 1)
write_property_effect_example =
    Appends.write_property_effect Slotted.new value 4096 (new-IsSlotted.0) (omega arith)
      (inl (new-IsSlotted.1)) data_end-new (omega (arith, new-IsSlotted.1))

abbrev one : SlottedPage
one = first_write.0

one-IsSlotted : IsSlotted one
one-IsSlotted = first_write.2

slot_count-one : slot_count one ≡ 1
slot_count-one = first_write.5 ∙ omega (arith, new-IsSlotted.1)

live_count-one : live_count one ≡ 1
live_count-one = first_write.6 ∙ omega (arith, new-IsSlotted.2)

offset_at-one : View.offset_at one 0 ≢ Slotted.tombstone_off
offset_at-one =
    let live : 0 < View.count_live 1 one = omega (
      arith,
      live_count-one,
      one-IsSlotted.counted,
      ap (λ (n : ℕ). View.count_live n one) slot_count-one,
    ) in
    let (j, lt, alive) = View.count_live-pos 1 one live in
    let first : j ≡ 0 = omega arith in rw first at alive

first_free :
    (page' : SlottedPage) × (free_slot one 0 ≡ ok page')
    × IsSlotted page'
    × (read_property page' 0 ≡ err property_slot_freed)
    × ((i : ℕ) → i < slot_count one → i ≢ 0 → read_property page' i ≡ read_property one i)
    × (slot_count page' ≡ slot_count one)
    × (live_count page' + 1 ≡ live_count one)
first_free =
    Released.free_slot_effect one 0 one-IsSlotted (omega (arith, slot_count-one)) offset_at-one

free_slot_effect_example :
    (page' : SlottedPage) × (free_slot one 0 ≡ ok page')
    × IsSlotted page'
    × (read_property page' 0 ≡ err property_slot_freed)
    × ((i : ℕ) → i < slot_count one → i ≢ 0 → read_property page' i ≡ read_property one i)
    × (slot_count page' ≡ slot_count one)
    × (live_count page' + 1 ≡ live_count one)
free_slot_effect_example =
    Released.free_slot_effect one 0 one-IsSlotted (omega (arith, slot_count-one)) offset_at-one

abbrev freed : SlottedPage
freed = first_free.0

write_property_all_freed_example : write_property freed value ≡ panic
write_property_all_freed_example =
    Appends.write_property_all_freed freed value (first_free.2)
      (omega (arith, first_free.5, slot_count-one)) (omega (arith, first_free.6, live_count-one))
      (omega arith)

write_property_refused_example :
    write_property Slotted.new (replicate 4089 1) ≡ err (storage_corrupted 0)
write_property_refused_example =
    Appends.write_property_refused Slotted.new (replicate 4089 1) 4096 data_end-new
      (omega (arith, new-IsSlotted.1, length-replicate {A = ℕ} 4089 1))

-- A page whose header claims 65535 slots.
abbrev ones : SlottedPage
ones = replicate 4096 255

panic_iff_example : (read_property ones 2000 ≡ panic) ↔ ((2000 < slot_count ones) × (1023 ≤ 2000))
panic_iff_example = Reads.read_property-eq-panic_iff ones 2000 (length-replicate 4096 255)

is_valid_lem_example :
    (b : Bool) × (is_valid one ≡ ok b)
    × ((b ≡ true) ↔ (
        (4 + slot_count one * 4 ≤ 4096) × ((i : ℕ) → i < slot_count one → Reads.EntryInPage one i)))
is_valid_lem_example = Reads.is_valid_lem one one-IsSlotted.size

abbrev blank : List ℕ
blank = replicate 4096 0

abbrev long : List ℕ
long = replicate 5000 66

long_needs : Blob.pages_needed (length long) ≡ 2
unfolding Blob.pages_needed
long_needs = omega (arith, length-replicate {A = ℕ} 5000 66)

blob_example :
    (chain : List (List ℕ)) × (write_blob_chain (blank ∷ blank ∷ []) long ≡ ok chain)
    × (length chain ≡ 2)
    × (read_blob_chain chain ≡ ok long)
blob_example =
    RoundTrip.read_blob_chain-write_blob_chain long (blank ∷ blank ∷ [])
      (length-replicate 4096 0, (length-replicate 4096 0, tt)) (omega (arith, long_needs))
      (omega arith)

hostile_example : Hostile.OkOrCorrupted (read_blob_chain (blank ∷ []))
hostile_example = Hostile.read_blob_chain_total (blank ∷ []) (length-replicate 4096 0, tt)
