-- ===== src/Tests/Searches.antt =====
-- pathfinding/mod.rs on a chain of three nodes, and on the node of the adjacency tests.
use chiffondb.Prelude.{
  ◌≡◌, ◌≢◌, refl, inl, inr, true, Bool-cases, Option, some, List, [], ◌∷◌, All, Result, ok, panic,
  if◌then◌else◌, arith,
}
use chiffondb.Storage.Ids.{RecordId, rid_eq}
use chiffondb.Pathfinding.{
  Neighbor, PathResult, ConnectingSubgraph, default_options, shortest_path, connecting_subgraph,
  search, expand, contains_key, reconstruct_path, walk_back, find_origin, wrap_path,
}
use chiffondb.Pathfinding.Reached.{is_in}
use chiffondb.Pathfinding.Ends.{IsClosed, IsTotal, IsAnswer, shortest_path_effect}
use chiffondb.Pathfinding.Subgraph.{connecting_subgraph_effect}
use chiffondb.Tests.Graphs.{place}

abbrev nodes : List RecordId
nodes = place 0 ∷ place 1 ∷ place 2 ∷ []

-- From each node an edge to the next one.
chain : RecordId → Option (Result (List Neighbor))
chain node =
    if rid_eq node (place 0)
    then some (ok ((place 10, place 1) ∷ []))
    else if rid_eq node (place 1)
    then some (ok ((place 11, place 2) ∷ []))
    else some (ok [])

chain-IsClosed : IsClosed chain nodes
unfolding chain is_in
chain-IsClosed node found known e = elim (Bool-cases (rid_eq node (place 0))) [
  | inl first ↦ let q : (place 10, place 1) ∷ [] ≡ found = cc (rw first at e) in rw (← q) (refl, tt)
  | inr other ↦ elim (Bool-cases (rid_eq node (place 1))) [
    | inl second ↦
        let q : (place 11, place 2) ∷ [] ≡ found = cc (rw (other, second) at e) in
        rw (← q) (refl, tt)
    | inr last ↦ let q : [] ≡ found = cc (rw (other, last) at e) in rw (← q) tt
  ]
]

chain-IsTotal : IsTotal chain nodes
unfolding chain
chain-IsTotal node known = elim (Bool-cases (rid_eq node (place 0))) [
  | inl first ↦ rw first (λ e. cc, λ e. cc)
  | inr other ↦ elim (Bool-cases (rid_eq node (place 1))) [
    | inl second ↦ rw (other, second) (λ e. cc, λ e. cc)
    | inr last ↦ rw (other, last) (λ e. cc, λ e. cc)
  ]
]

found_path :
    shortest_path 5 chain (place 0) (place 2) default_options
    ≡ some (
        ok (
          some (record {
            node_rids = place 0 ∷ place 1 ∷ place 2 ∷ [];
            edge_rids = place 10 ∷ place 11 ∷ [];
          })))
unfolding shortest_path search expand contains_key reconstruct_path walk_back find_origin wrap_path
    chain
found_path = refl

shortest_path_example :
    (r : Result (Option PathResult)) × (shortest_path 5 chain (place 0) (place 2) default_options
      ≡ some r)
    × IsAnswer chain nodes (place 0) (place 2) r
unfolding is_in
shortest_path_example =
    shortest_path_effect chain nodes 5 (place 0) (place 2) default_options chain-IsClosed
      chain-IsTotal refl (omega arith)

connecting_subgraph_example :
    (r : Result ConnectingSubgraph) × (connecting_subgraph 5 chain default_options
        (place 0 ∷ place 2 ∷ [])
      ≡ some r)
    × (r ≢ panic)
    × ((result : ConnectingSubgraph)
        → r ≡ ok result
        → All (λ (rid : RecordId). is_in result.node_rids rid ≡ true) (place 0 ∷ place 2 ∷ []))
unfolding is_in
connecting_subgraph_example =
    connecting_subgraph_effect chain nodes 5 default_options chain-IsClosed chain-IsTotal
      (omega arith) (place 0 ∷ place 2 ∷ []) (refl, (refl, tt))
