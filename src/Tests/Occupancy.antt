-- ===== src/Tests/Occupancy.antt =====
-- The live records of storage/topology.rs, on pages whose first and third slots are used.
use chiffondb.Prelude.{
  ℕ, some, false, if◌then◌else◌, ◌≡◌, refl, ◌∙◌, ap, true, List, [], ◌∷◌, replicate,
  length-replicate, All-replicate, any, >>=-ok, ok, suc, arith,
}
use chiffondb.Bytes.Words.{IsByte}
use chiffondb.Storage.Ids.{RecordId, rid_eq}
use chiffondb.Storage.Page.{
  alloc_slot, alloc_from, set_bitmap, set_bit, compute_slot_count, fit_slots, is_used, from_bytes,
}
use chiffondb.Storage.Topology.{
  node_kind, live_slots, alloc_topology_slot, scan_slots, advance_hint, slot_used, load_page,
  load_node_page, live_from, live_node_rids, node_slot_used,
}
use chiffondb.Storage.Topology.Records.{record_page}
use chiffondb.Storage.Topology.Live
use chiffondb.Storage.Topology.Allocs
use chiffondb.Tests.Graphs.{
  Memory, memory, IsStore, memory-IsTopologyFile, update, is_page_of_bytes, valid_complete,
}

abbrev page : List ℕ
page = 5 ∷ replicate 4095 0

abbrev file : Memory
file kind logical = page

abbrev at : ℕ → ℕ → RecordId
at logical slot = record { page_id = logical; slot_id = slot }

page_valid : is_page_of_bytes page ≡ true
page_valid =
    valid_complete page (ap suc (length-replicate 4095 0))
      (omega arith, All-replicate IsByte 4095 0 (omega arith))

used_slots :
    (logical : ℕ) → live_slots (record_page page) logical 63 0 ≡ at logical 0 ∷ at logical 2 ∷ []
unfolding live_slots is_used replicate compute_slot_count fit_slots
used_slots logical = refl

load : (logical : ℕ) → load_page memory node_kind file logical ≡ ok (record_page page)
unfolding load_page load_node_page from_bytes
load logical = >>=-ok (memory.read_page node_kind logical file) _ page (rw page_valid refl)

live : live_node_rids memory file ≡ ok (at 0 0 ∷ at 0 2 ∷ at 1 0 ∷ at 1 2 ∷ [])
unfolding live_node_rids live_from compute_slot_count fit_slots
live =
    >>=-ok (load_page memory node_kind file 0) _ (record_page page) (load 0)
    ∙ >>=-ok (live_from memory node_kind file 1 1) _ (at 1 0 ∷ at 1 2 ∷ []) (
        >>=-ok (load_page memory node_kind file 1) _ (record_page page) (load 1)
        ∙ rw (used_slots 1) refl)
    ∙ rw (used_slots 0) refl

live_example :
    node_slot_used memory file (at 1 2)
    ≡ ok (any (rid_eq (at 1 2)) (at 0 0 ∷ at 0 2 ∷ at 1 0 ∷ at 1 2 ∷ []))
live_example =
    Live.live_node_rids-node_slot_used memory file (at 0 0 ∷ at 0 2 ∷ at 1 0 ∷ at 1 2 ∷ []) (at 1 2)
      live

-- The page with its first three slots used.
abbrev taken : List ℕ
taken = 7 ∷ replicate 4095 0

taken_valid : is_page_of_bytes taken ≡ true
taken_valid =
    valid_complete taken (ap suc (length-replicate 4095 0))
      (omega arith, All-replicate IsByte 4095 0 (omega arith))

slot_taken : alloc_slot (record_page page) ≡ (some 1, record_page taken)
unfolding alloc_slot alloc_from is_used set_bitmap set_bit replicate compute_slot_count fit_slots
slot_taken = refl

abbrev after : Memory
after = update node_kind 0 taken file

written : memory.write_page node_kind 0 (alloc_slot (record_page page)).1.bytes file ≡ ok after
written = rw slot_taken (rw taken_valid refl)

scanned : scan_slots memory node_kind 0 2 0 file ≡ ok (some (0, 1, after))
unfolding scan_slots advance_hint
scanned =
    >>=-ok (load_page memory node_kind file 0) _ (record_page page) (load 0)
    ∙ rw slot_taken (
        >>=-ok (memory.write_page node_kind 0 (alloc_slot (record_page page)).1.bytes file) _ after
          written)

alloc_example :
    (alloc_topology_slot memory node_kind 64 file ≡ ok (0, 1, after))
    × ((slot_used memory node_kind file (at 0 1) ≡ ok false)
        × ((other : RecordId)
            → slot_used memory node_kind after other
              ≡ (if rid_eq (at 0 1) other then ok true else slot_used memory node_kind file other)))
    × IsStore after
alloc_example =
    Allocs.alloc_topology_slot_effect memory memory-IsTopologyFile node_kind 64 file after 0 1 tt
      scanned
