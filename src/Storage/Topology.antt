-- ===== src/Storage/Topology.antt =====
-- chiffondb-core/src/storage/topology.rs: node and edge records in pages of slots, and the lists of a
-- node's edges that run through the edge records. The database file is the interface `TopologyFile`.
-- `TopologyStore` has no state of its own. Logical page numbers are below 2^32, so `as u32` keeps them.
pub mod Contract
pub mod Fields
pub mod Records
pub mod Changes
pub mod Totals
pub mod Chains
pub mod Links
pub mod Appends
pub mod Unlinks
pub mod Live
pub mod Allocs
use chiffondb.Prelude.{
  ℕ, zero, suc, ◌+◌, ◌-◌, ◌%◌, Bool, true, false, Option, none, some, List, [], ◌∷◌, ◌++◌, Result,
  ok, err, panic, storage_corrupted, ltb, leb, ◌==◌, if◌then◌else◌, ◌>>=◌,
}
use chiffondb.Storage.Ids.{RecordId, rid_eq}
use chiffondb.Storage.Page
use chiffondb.Storage.Page.{Page, alloc_slot, is_used, read_slot, write_slot}
use chiffondb.Storage.Record.Node
use chiffondb.Storage.Record.Node.{NodeRecord, node_record_size}
use chiffondb.Storage.Record.Edge
use chiffondb.Storage.Record.Edge.{EdgeRecord, edge_record_size}

-- storage/file.rs, `TopologyKind`.
pub data TopologyKind : Type 0 where
  node_kind edge_kind : TopologyKind

-- `EdgeDirection`
pub data EdgeDirection : Type 0 where
  out_list in_list : EdgeDirection

-- The operations of `DatabaseFile` that the store uses.
pub record TopologyFile (F : Type 0) : Type 0 where
  pub page_count : TopologyKind → F → ℕ
  pub first_free_hint : TopologyKind → F → ℕ
  pub set_first_free_hint : TopologyKind → ℕ → F → Result F
  pub read_page : TopologyKind → ℕ → F → Result (List ℕ)
  pub write_page : TopologyKind → ℕ → List ℕ → F → Result F
  pub alloc_page : TopologyKind → List ℕ → F → Result (ℕ × F)

unfoldable pub next_edge : EdgeDirection → EdgeRecord → Option RecordId
next_edge out_list edge = edge.next_out_edge
next_edge in_list edge = edge.next_in_edge

unfoldable pub first_edge : EdgeDirection → NodeRecord → Option RecordId
first_edge out_list node = node.first_out_edge
first_edge in_list node = node.first_in_edge

unfoldable pub with_next : EdgeDirection → Option RecordId → EdgeRecord → EdgeRecord
with_next out_list next edge = record edge { next_out_edge = next }
with_next in_list next edge = record edge { next_in_edge = next }

unfoldable pub with_first : EdgeDirection → Option RecordId → NodeRecord → NodeRecord
with_first out_list first node = record node { first_out_edge = first }
with_first in_list first node = record node { first_in_edge = first }

-- The record ids of the used slots of one page, from slot `slot` on, with `n` of them left.
unfoldable pub live_slots : Page → ℕ → ℕ → ℕ → List RecordId
live_slots page logical zero slot = []
live_slots page logical (suc n) slot =
    let rest = live_slots page logical n (slot + 1) in
    if is_used page slot then record { page_id = logical; slot_id = slot } ∷ rest else rest

abbrev pub option_rid_eq : Option RecordId → RecordId → Bool
option_rid_eq none target = false
option_rid_eq (some rid) target = rid_eq rid target

-- `.map(|p| p.is_used(slot)).unwrap_or(false)`; a panic is not caught.
unfoldable pub used_or_false : Result Page → ℕ → Result Bool
used_or_false (ok page) slot = ok (is_used page slot)
used_or_false (err e) slot = ok false
used_or_false panic slot = panic

-- `?` on the result of a loop with fuel.
unfoldable pub and_run :
    {A B : Type 0} → Option (Result A) → (A → Option (Result B)) → Option (Result B)
and_run none next = none
and_run (some (ok a)) next = next a
and_run (some (err e)) next = some (err e)
and_run (some panic) next = some panic

module _ {F : Type 0} (files : TopologyFile F) where
  unfoldable pub load_node_page : F → ℕ → Result Page
  load_node_page file logical = do
    bytes ← files.read_page node_kind logical file
    Page.from_bytes bytes node_record_size

  unfoldable pub load_edge_page : F → ℕ → Result Page
  load_edge_page file logical = do
    bytes ← files.read_page edge_kind logical file
    Page.from_bytes bytes edge_record_size

  -- The page of a kind, and its slot size.
  unfoldable pub load_page : TopologyKind → F → ℕ → Result Page
  load_page node_kind file logical = load_node_page file logical
  load_page edge_kind file logical = load_edge_page file logical

  -- The loop of `live_node_rids` and of `live_edge_rids` over the pages from `logical` on, with `n`
  -- of them left.
  unfoldable pub live_from : TopologyKind → F → ℕ → ℕ → Result (List RecordId)
  live_from kind file zero logical = ok []
  live_from kind file (suc n) logical = do
    page ← load_page kind file logical
    rest ← live_from kind file n (logical + 1)
    ok (live_slots page logical page.slot_count 0 ++ rest)

  unfoldable pub live_node_rids : F → Result (List RecordId)
  live_node_rids file = live_from node_kind file (files.page_count node_kind file) 0

  unfoldable pub live_edge_rids : F → Result (List RecordId)
  live_edge_rids file = live_from edge_kind file (files.page_count edge_kind file) 0

  -- `node_slot_used` and `edge_slot_used` are this code on their pages.
  unfoldable pub slot_used : TopologyKind → F → RecordId → Result Bool
  slot_used kind file rid =
      if leb (files.page_count kind file) rid.page_id
      then ok false
      else used_or_false (load_page kind file rid.page_id) rid.slot_id

  abbrev pub node_slot_used : F → RecordId → Result Bool
  node_slot_used = slot_used node_kind

  abbrev pub edge_slot_used : F → RecordId → Result Bool
  edge_slot_used = slot_used edge_kind

  unfoldable pub read_node : F → RecordId → Result NodeRecord
  read_node file rid =
      if leb (files.page_count node_kind file) rid.page_id
      then err (storage_corrupted rid.page_id)
      else do
        page ← load_node_page file rid.page_id
        bytes ← read_slot page rid.slot_id
        Node.deserialize bytes

  unfoldable pub write_node : F → NodeRecord → Result F
  write_node file node =
      if leb (files.page_count node_kind file) node.id.page_id
      then err (storage_corrupted node.id.page_id)
      else do
        page ← load_node_page file node.id.page_id
        page' ← write_slot page node.id.slot_id (Node.serialize node)
        files.write_page node_kind node.id.page_id page'.bytes file

  unfoldable pub read_edge : F → RecordId → Result EdgeRecord
  read_edge file rid =
      if leb (files.page_count edge_kind file) rid.page_id
      then err (storage_corrupted rid.page_id)
      else do
        page ← load_edge_page file rid.page_id
        bytes ← read_slot page rid.slot_id
        Edge.deserialize bytes

  unfoldable pub write_edge : F → EdgeRecord → Result F
  write_edge file edge =
      if leb (files.page_count edge_kind file) edge.id.page_id
      then err (storage_corrupted edge.id.page_id)
      else do
        page ← load_edge_page file edge.id.page_id
        page' ← write_slot page edge.id.slot_id (Edge.serialize edge)
        files.write_page edge_kind edge.id.page_id page'.bytes file

  -- A hint that moves only where it changes (`if logical != start`).
  unfoldable pub advance_hint : TopologyKind → ℕ → ℕ → F → Result F
  advance_hint kind start logical file =
      if logical == start then ok file else files.set_first_free_hint kind logical file

  -- The loop over the pages from `logical` on, with `n` of them left; `none` where all are full.
  unfoldable pub scan_slots : TopologyKind → ℕ → ℕ → ℕ → F → Result (Option (ℕ × ℕ × F))
  scan_slots kind start zero logical file = ok none
  scan_slots kind start (suc n) logical file = do
    page ← load_page kind file logical
    let (found, page') = alloc_slot page
    elim found [
      | none ↦ scan_slots kind start n (logical + 1) file
      | some slot ↦ do
        file' ← files.write_page kind logical page'.bytes file
        file'' ← advance_hint kind start logical file'
        ok (some (logical, slot, file''))
    ]

  -- A new page with its first slot taken.
  unfoldable pub alloc_in_new_page : TopologyKind → ℕ → F → Result (ℕ × ℕ × F)
  alloc_in_new_page kind record_size file = do
    page ← Page.new record_size
    let (found, page') = alloc_slot page
    elim found [
      | none ↦ err (storage_corrupted 0)
      | some slot ↦ do
        (logical, file') ← files.alloc_page kind page'.bytes file
        file'' ← files.set_first_free_hint kind logical file'
        ok (logical, slot, file'')
    ]

  unfoldable pub alloc_topology_slot : TopologyKind → ℕ → F → Result (ℕ × ℕ × F)
  alloc_topology_slot kind record_size file = do
    let start = files.first_free_hint kind file
    found ← scan_slots kind start (files.page_count kind file - start) start file
    elim found [ some result ↦ ok result | none ↦ alloc_in_new_page kind record_size file ]

  unfoldable pub alloc_node : ℕ → F → Result (RecordId × F)
  alloc_node node_type_id file = do
    (logical, slot, file') ← alloc_topology_slot node_kind node_record_size file
    let rid : RecordId = record { page_id = logical; slot_id = slot }
    file'' ← write_node file' (record {
      id = rid;
      node_type_id = node_type_id;
      first_out_edge = none;
      first_in_edge = none;
      property_ref = none;
      label_ref = none;
      flags = 0;
    })
    ok (rid, file'')

  unfoldable pub alloc_edge : ℕ → RecordId → RecordId → F → Result (RecordId × F)
  alloc_edge edge_type_id from_node to_node file = do
    (logical, slot, file') ← alloc_topology_slot edge_kind edge_record_size file
    let rid : RecordId = record { page_id = logical; slot_id = slot }
    file'' ← write_edge file' (record {
      id = rid;
      edge_type_id = edge_type_id;
      from_node = from_node;
      to_node = to_node;
      next_out_edge = none;
      next_in_edge = none;
      property_ref = none;
      flags = 0;
      label_ref = none;
    })
    ok (rid, file'')

  -- `append_out_edge` and `append_in_edge` are this code on their fields.
  unfoldable pub append_edge : EdgeDirection → RecordId → RecordId → F → Result F
  append_edge direction node_rid edge_rid file = do
    node ← read_node file node_rid
    edge ← read_edge file edge_rid
    file' ← write_edge file (with_next direction (first_edge direction node) edge)
    write_node file' (with_first direction (some edge_rid) node)

  abbrev pub append_out_edge : RecordId → RecordId → F → Result F
  append_out_edge = append_edge out_list

  abbrev pub append_in_edge : RecordId → RecordId → F → Result F
  append_in_edge = append_edge in_list

  -- The loop of `collect_edge_chain` with fuel: `none` where it still runs when the fuel is used up.
  -- The source collects into a vector, which an error drops.
  unfoldable pub collect_from :
      ℕ → F → EdgeDirection → Option RecordId → Option (Result (List EdgeRecord))
  collect_from zero file direction next = none
  collect_from (suc fuel) file direction none = some (ok [])
  collect_from (suc fuel) file direction (some rid) = elim (read_edge file rid) [
    | err e ↦ some (err e)
    | panic ↦ some panic
    | ok edge ↦ elim (collect_from fuel file direction (next_edge direction edge)) [
      | none ↦ none
      | some rest ↦ some (rest >>= λ edges. ok (edge ∷ edges))
    ]
  ]

  unfoldable pub collect_edge_chain :
      ℕ → F → RecordId → EdgeDirection → Option (Result (List EdgeRecord))
  collect_edge_chain fuel file node_rid direction = elim (read_node file node_rid) [
    | err e ↦ some (err e)
    | panic ↦ some panic
    | ok node ↦ collect_from fuel file direction (first_edge direction node)
  ]

  unfoldable pub back_off_topology_hint : TopologyKind → ℕ → F → Result F
  back_off_topology_hint kind logical file =
      if ltb logical (files.first_free_hint kind file)
      then files.set_first_free_hint kind logical file
      else ok file

  unfoldable pub free_node : RecordId → F → Result F
  free_node rid file = do
    page ← load_node_page file rid.page_id
    page' ← Page.free_slot page rid.slot_id
    file' ← files.write_page node_kind rid.page_id page'.bytes file
    back_off_topology_hint node_kind rid.page_id file'

  -- The loop of `remove_from_list`, with fuel as in `collect_from`.
  unfoldable pub unlink :
      ℕ → EdgeDirection → F → Option RecordId → RecordId → Option RecordId → Option (Result F)
  unlink zero direction file cur target target_next = none
  unlink (suc fuel) direction file none target target_next = some (ok file)
  unlink (suc fuel) direction file (some cur) target target_next = elim (read_edge file cur) [
    | err e ↦ some (err e)
    | panic ↦ some panic
    | ok edge ↦ elim (option_rid_eq (next_edge direction edge) target) [
      | true ↦ some (write_edge file (with_next direction target_next edge))
      | false ↦ unlink fuel direction file (next_edge direction edge) target target_next
    ]
  ]

  -- `remove_from_out_list` and `remove_from_in_list` are this code on their fields.
  unfoldable pub remove_from_list :
      ℕ → EdgeDirection → F → RecordId → RecordId → Option RecordId → Option (Result F)
  remove_from_list fuel direction file node_rid target target_next =
      elim (read_node file node_rid) [
        | err e ↦ some (err e)
        | panic ↦ some panic
        | ok node ↦ elim (option_rid_eq (first_edge direction node) target) [
          | true ↦ some (write_node file (with_first direction target_next node))
          | false ↦ unlink fuel direction file (first_edge direction node) target target_next
        ]
      ]

  abbrev pub remove_from_out_list :
      ℕ → F → RecordId → RecordId → Option RecordId → Option (Result F)
  remove_from_out_list fuel = remove_from_list fuel out_list

  abbrev pub remove_from_in_list : ℕ → F → RecordId → RecordId → Option RecordId → Option (Result F)
  remove_from_in_list fuel = remove_from_list fuel in_list

  -- The end of `delete_edge`: the slot is freed, and the search hint backs off to its page.
  unfoldable pub free_edge_slot : F → RecordId → Result F
  free_edge_slot file edge_rid = do
    page ← load_edge_page file edge_rid.page_id
    page' ← Page.free_slot page edge_rid.slot_id
    file' ← files.write_page edge_kind edge_rid.page_id page'.bytes file
    back_off_topology_hint edge_kind edge_rid.page_id file'

  unfoldable pub delete_edge : ℕ → RecordId → F → Option (Result F)
  delete_edge fuel edge_rid file = elim (read_edge file edge_rid) [
    | err e ↦ some (err e)
    | panic ↦ some panic
    | ok edge ↦
        and_run (remove_from_out_list fuel file edge.from_node edge_rid edge.next_out_edge)
          (λ file1.
            and_run (remove_from_in_list fuel file1 edge.to_node edge_rid edge.next_in_edge)
              (λ file2. some (free_edge_slot file2 edge_rid)))
  ]
