-- ===== src/Tests/Adjacency.antt =====
-- The lists of edges of storage/topology.rs, on a node with two outgoing edges, one edge that is in no
-- list, and a node whose incoming list runs in a circle.
use chiffondb.Prelude.{
  ℕ, ◌<◌, ◌≡◌, ◌≢◌, refl, ◌∙◌, none, some, Option, List, [], ◌∷◌, ok, Result, arith, ap,
}
use chiffondb.Storage.Ids.{RecordId, IsRid, IsRidOption}
use chiffondb.Storage.Record.Node.{NodeRecord, IsNodeRecord}
use chiffondb.Storage.Record.Edge.{EdgeRecord, IsEdgeRecord}
use chiffondb.Storage.Topology.{
  out_list, in_list, next_edge, first_edge, read_node, read_edge, remove_from_list,
  collect_edge_chain,
}
use chiffondb.Storage.Topology.Chains.{
  Segment, collect_edge_chain-Segment, collect_edge_chain_cycle,
}
use chiffondb.Storage.Topology.Unlinks
use chiffondb.Pathfinding.{PathOptions, Neighbor, both, neighbors}
use chiffondb.Pathfinding.Neighbors.{Around, neighbors-Segment}
use chiffondb.Tests.Graphs.{
  Memory, memory, IsStore, blank, memory-IsTopologyFile, place, blank-IsReadable, put_edge,
  put_node,
}

abbrev edge_at : ℕ → Option RecordId → Option RecordId → EdgeRecord
edge_at slot next_out next_in = record {
  id = place slot;
  edge_type_id = 1;
  from_node = place 0;
  to_node = place 0;
  next_out_edge = next_out;
  next_in_edge = next_in;
  property_ref = none;
  flags = 0;
  label_ref = none;
}

abbrev first : EdgeRecord
first = edge_at 1 (some (place 2)) none

abbrev second : EdgeRecord
second = edge_at 2 none none

abbrev loose : EdgeRecord
loose = edge_at 3 none none

abbrev circle : EdgeRecord
circle = edge_at 4 none (some (place 4))

abbrev node : NodeRecord
node = record {
  id = place 0;
  node_type_id = 1;
  first_out_edge = some (place 1);
  first_in_edge = some (place 4);
  property_ref = none;
  label_ref = none;
  flags = 0;
}

edge_at-IsEdgeRecord :
    (slot : ℕ) (next_out next_in : Option RecordId)
    → slot < 63
    → IsRidOption next_out
    → IsRidOption next_in
    → IsEdgeRecord (edge_at slot next_out next_in)
edge_at-IsEdgeRecord slot next_out next_in lt fits_out fits_in = record {
  id_fits = record { page = omega arith; slot = omega arith };
  edge_type_id_fits = omega arith;
  from_node_fits = record { page = omega arith; slot = omega arith };
  to_node_fits = record { page = omega arith; slot = omega arith };
  next_out_edge_fits = fits_out;
  next_in_edge_fits = fits_in;
  property_ref_fits = tt;
  flags_fits = omega arith;
  label_ref_fits = tt;
}

place-IsRid : (slot : ℕ) → slot < 63 → IsRid (place slot)
place-IsRid slot lt = record { page = omega arith; slot = omega arith }

node-IsNodeRecord : IsNodeRecord node
node-IsNodeRecord = record {
  id_fits = place-IsRid 0 (omega arith);
  node_type_id_fits = omega arith;
  first_out_edge_fits = place-IsRid 1 (omega arith);
  first_in_edge_fits = place-IsRid 4 (omega arith);
  property_ref_fits = tt;
  label_ref_fits = tt;
  flags_fits = omega arith;
}

-- A node whose incoming list is the loose edge.
abbrev hub : NodeRecord
hub = record node { id = place 5; first_in_edge = some (place 3) }

hub-IsNodeRecord : IsNodeRecord hub
hub-IsNodeRecord = record {
  id_fits = place-IsRid 5 (omega arith);
  node_type_id_fits = omega arith;
  first_out_edge_fits = place-IsRid 1 (omega arith);
  first_in_edge_fits = place-IsRid 3 (omega arith);
  property_ref_fits = tt;
  label_ref_fits = tt;
  flags_fits = omega arith;
}

-- A file that holds the two nodes and the four edges.
graph :
    (file : Memory) × (read_node memory file (place 0) ≡ ok node)
    × (read_edge memory file (place 1) ≡ ok first)
    × (read_edge memory file (place 2) ≡ ok second)
    × (read_edge memory file (place 3) ≡ ok loose)
    × (read_edge memory file (place 4) ≡ ok circle)
    × (read_node memory file (place 5) ≡ ok hub)
graph =
    let (f1, readable1, here1, there1, nodes1) =
      put_edge blank 1 first blank-IsReadable (omega arith) refl (
        edge_at-IsEdgeRecord 1 (some (place 2)) none (omega arith) (place-IsRid 2 (omega arith))
          tt) in
    let (f2, readable2, here2, there2, nodes2) =
      put_edge f1 2 second readable1 (omega arith) refl
        (edge_at-IsEdgeRecord 2 none none (omega arith) tt tt) in
    let (f3, readable3, here3, there3, nodes3) =
      put_edge f2 3 loose readable2 (omega arith) refl
        (edge_at-IsEdgeRecord 3 none none (omega arith) tt tt) in
    let (f4, readable4, here4, there4, nodes4) = put_edge f3 4 circle readable3 (omega arith) refl (
      edge_at-IsEdgeRecord 4 none (some (place 4)) (omega arith) tt
        (place-IsRid 4 (omega arith))) in
    let (f5, readable5, here5, there5, same5) =
      put_node f4 5 hub readable4 (omega arith) refl hub-IsNodeRecord in
    let (file, readable, here, there, same6) =
      put_node f5 0 node readable5 (omega arith) refl node-IsNodeRecord in
    let same = λ (rid : RecordId). same6 rid ∙ same5 rid in
    (
      file,
      here,
      same (place 1)
          ∙ there4 1 (omega arith)
          ∙ there3 1 (omega arith)
          ∙ there2 1 (omega arith)
          ∙ here1,
      same (place 2) ∙ there4 2 (omega arith) ∙ there3 2 (omega arith) ∙ here2,
      same (place 3) ∙ there4 3 (omega arith) ∙ here3,
      same (place 4) ∙ here4,
      there 5 (omega arith) ∙ here5,
    )

abbrev file : Memory
file = graph.0

outgoing : Segment memory out_list file (first_edge out_list node) (first ∷ second ∷ []) none
unfolding first_edge next_edge
outgoing = (refl, graph.2, (refl, graph.3, refl))

incoming : Segment memory in_list file (some (place 4)) (circle ∷ []) (some (place 4))
unfolding next_edge
incoming = (refl, graph.5, refl)

first_incoming : first_edge in_list node ≡ some (place 4)
unfolding first_edge
first_incoming = refl

to_second : Segment memory out_list file (first_edge out_list node) (first ∷ []) (some (place 2))
unfolding first_edge next_edge
to_second = (refl, graph.2, refl)

collect_example :
    collect_edge_chain memory 3 file (place 0) out_list ≡ some (ok (first ∷ second ∷ []))
collect_example =
    collect_edge_chain-Segment memory 3 out_list file (place 0) node (first ∷ second ∷ []) graph.1
      outgoing (omega arith)

cycle_example : collect_edge_chain memory 100 file (place 0) in_list ≡ none
cycle_example =
    collect_edge_chain_cycle memory 100 in_list file (place 0) node circle [] [] graph.1
      first_incoming incoming

places_apart : (i j : ℕ) → i ≢ j → place i ≢ place j
places_apart i j ne e = ne (ap (λ (r : RecordId). r.slot_id) e)

remove_example :
    (r : Result Memory) × (remove_from_list memory 1 out_list file (place 0) (place 2) none
      ≡ some r)
    × ((file' : Memory) (walk : ℕ)
        → r ≡ ok file'
        → 1 < walk
        → (edges : List EdgeRecord) × (collect_edge_chain memory walk file' (place 0) out_list
            ≡ some (ok edges))
          × (Unlinks.ids edges ≡ place 1 ∷ [])
          × IsStore file')
remove_example =
    Unlinks.remove_from_list_effect memory memory-IsTopologyFile out_list file (place 2) none [] tt
      tt refl 1 node (first ∷ []) graph.1 to_second (places_apart 1 2 (omega arith), tt) (tt, tt)
      (omega arith)

abbrev options : PathOptions
options = record { max_depth = 10; direction = both; edge_type_ids = some (1 ∷ []) }

hub_outgoing : Segment memory out_list file (first_edge out_list hub) (first ∷ second ∷ []) none
unfolding first_edge next_edge
hub_outgoing = (refl, graph.2, (refl, graph.3, refl))

hub_incoming : Segment memory in_list file (first_edge in_list hub) (loose ∷ []) none
unfolding first_edge next_edge
hub_incoming = (refl, graph.4, refl)

neighbors_example :
    (found : List Neighbor) × (neighbors memory 3 file options (place 5) ≡ some (ok found))
    × Around both (some (1 ∷ [])) (first ∷ second ∷ []) (loose ∷ []) found
neighbors_example =
    neighbors-Segment memory 3 file options (place 5) hub (first ∷ second ∷ []) (loose ∷ []) graph.6
      hub_outgoing hub_incoming (omega arith) (omega arith)
