-- ===== src/Pathfinding.antt =====
-- chiffondb-core/src/pathfinding/mod.rs: breadth-first search for a shortest path. `visited` is a list
-- of a node with the edge and the node that led to it, the newest first.
pub mod Tree
pub mod Reached
pub mod Ends
pub mod Neighbors
pub mod Subgraph
use chiffondb.Prelude.{
  ℕ, zero, suc, ◌+◌, Bool, true, false, Option, none, some, List, [], ◌∷◌, ◌++◌, map, length, any,
  Result, ok, err, panic, leb, ◌==◌, if◌then◌else◌, ◌>>=◌,
}
use chiffondb.Storage.Ids.{RecordId, rid_eq}
use chiffondb.Storage.Record.Edge.{EdgeRecord}
use chiffondb.Storage.Topology.{TopologyFile, out_list, in_list, collect_edge_chain, and_run}

pub data PathDirection : Type 0 where
  outgoing incoming both : PathDirection

pub record PathOptions : Type 0 where
  pub max_depth : ℕ
  pub direction : PathDirection
  pub edge_type_ids : Option (List ℕ)

-- `PathOptions::default()`
abbrev pub default_options : PathOptions
default_options = record { max_depth = 10; direction = both; edge_type_ids = none }

pub record PathResult : Type 0 where
  pub node_rids : List RecordId
  pub edge_rids : List RecordId

unfoldable pub edge_matches : ℕ → PathOptions → Bool
edge_matches type_id options = elim options.edge_type_ids [
  | none ↦ true
  | some ids ↦ any (λ (id : ℕ). id == type_id) ids
]

-- An edge, and the node at its other end.
abbrev pub Neighbor : Type 0
Neighbor = RecordId × RecordId

-- The edges of a list that match, each with the node at the end that `other_end` picks.
unfoldable pub matching : PathOptions → (EdgeRecord → RecordId) → List EdgeRecord → List Neighbor
matching options other_end [] = []
matching options other_end (edge ∷ edges) =
    let rest = matching options other_end edges in
    if edge_matches edge.edge_type_id options then (edge.id, other_end edge) ∷ rest else rest

-- `matches!(options.direction, PathDirection::Outgoing | PathDirection::Both)`
abbrev pub follows_outgoing : PathDirection → Bool
follows_outgoing outgoing = true
follows_outgoing incoming = false
follows_outgoing both = true

abbrev pub follows_incoming : PathDirection → Bool
follows_incoming outgoing = false
follows_incoming incoming = true
follows_incoming both = true

-- The second list of neighbours behind the first.
unfoldable pub join_results :
    Option (Result (List Neighbor))
    → Option (Result (List Neighbor))
    → Option (Result (List Neighbor))
join_results none later = none
join_results (some (err e)) later = some (err e)
join_results (some panic) later = some panic
join_results (some (ok found)) none = none
join_results (some (ok found)) (some later) = some (later >>= λ more. ok (found ++ more))

unfoldable pub map_found :
    (List EdgeRecord → List Neighbor)
    → Option (Result (List EdgeRecord))
    → Option (Result (List Neighbor))
map_found f none = none
map_found f (some r) = some (r >>= λ edges. ok (f edges))

-- `neighbors`; `fuel` bounds the walk over each list of edges, whose loop has no bound in the code.
unfoldable pub neighbors :
    {F : Type 0} → TopologyFile F → ℕ → F → PathOptions → RecordId → Option (Result (List Neighbor))
neighbors files fuel file options node =
    join_results
      (if follows_outgoing options.direction
        then map_found (matching options (λ (e : EdgeRecord). e.to_node))
            (collect_edge_chain files fuel file node out_list)
        else some (ok []))
      (if follows_incoming options.direction
        then map_found (matching options (λ (e : EdgeRecord). e.from_node))
            (collect_edge_chain files fuel file node in_list)
        else some (ok []))

abbrev pub Origin : Type 0
Origin = Option RecordId × Option RecordId

abbrev pub Visited : Type 0
Visited = List (RecordId × Origin)

unfoldable pub find_origin : Visited → RecordId → Option Origin
find_origin [] rid = none
find_origin ((key, origin) ∷ visited) rid =
    let rest = find_origin visited rid in if rid_eq key rid then some origin else rest

unfoldable pub contains_key : Visited → RecordId → Bool
contains_key visited rid = any (λ (entry : RecordId × Origin). rid_eq (entry.0) rid) visited

-- What the loop over the neighbours of one node ends in: the target is reached, or all are queued.
pub data Expanded : Type 0 where
  reached : Visited → Expanded
  queued : Visited → List (RecordId × ℕ) → Expanded

unfoldable pub expand :
    RecordId → RecordId → ℕ → List Neighbor → Visited → List (RecordId × ℕ) → Expanded
expand target current depth [] visited queue = queued visited queue
expand target current depth ((edge, node) ∷ rest) visited queue = elim (contains_key visited node) [
  | true ↦ expand target current depth rest visited queue
  | false ↦ elim (rid_eq node target) [
    | true ↦ reached ((node, (some edge, some current)) ∷ visited)
    | false ↦
        expand target current depth rest ((node, (some edge, some current)) ∷ visited)
          (queue ++ ((node, depth + 1) ∷ []))
  ]
]

-- The loop of `reconstruct_path` from `current` on, with fuel; the two vectors are pushed to and
-- reversed at the end, so the lists grow at the front. A missing key panics.
unfoldable pub walk_back :
    ℕ → RecordId → RecordId → Visited → List RecordId → List RecordId → Option (Result PathResult)
walk_back zero start current visited nodes edges = none
walk_back (suc fuel) start current visited nodes edges = elim (find_origin visited current) [
  | none ↦ some panic
  | some (some edge, some prev) ↦ elim (rid_eq prev start) [
    | true ↦ some (ok (record { node_rids = start ∷ current ∷ nodes; edge_rids = edge ∷ edges }))
    | false ↦ walk_back fuel start prev visited (current ∷ nodes) (edge ∷ edges)
  ]
  | some (some edge, none) ↦ some (ok (record { node_rids = current ∷ nodes; edge_rids = edges }))
  | some (none, prev) ↦ some (ok (record { node_rids = current ∷ nodes; edge_rids = edges }))
]

-- Every step back leads to an older entry, so there are at most as many as entries.
unfoldable pub reconstruct_path : RecordId → RecordId → Visited → Option (Result PathResult)
reconstruct_path start end visited = walk_back (length visited) start end visited [] []

unfoldable pub wrap_path : Option (Result PathResult) → Option (Result (Option PathResult))
wrap_path none = none
wrap_path (some r) = some (r >>= λ path. ok (some path))

-- The search over the neighbours that `next` gives: `self.neighbors(_, options)`, as in `path_between`.
module _ (next : RecordId → Option (Result (List Neighbor))) (start target : RecordId)
    (max_depth : ℕ) where
  -- The loop over the queue, with fuel.
  unfoldable pub search : ℕ → Visited → List (RecordId × ℕ) → Option (Result (Option PathResult))
  search zero visited queue = none
  search (suc fuel) visited [] = some (ok none)
  search (suc fuel) visited ((current, depth) ∷ queue) = elim (leb max_depth depth) [
    | true ↦ search fuel visited queue
    | false ↦ elim (next current) [
      | none ↦ none
      | some (err e) ↦ some (err e)
      | some panic ↦ some panic
      | some (ok found) ↦ elim (expand target current depth found visited queue) [
        | reached visited' ↦ wrap_path (reconstruct_path start target visited')
        | queued visited' queue' ↦ search fuel visited' queue'
      ]
    ]
  ]

unfoldable pub shortest_path :
    ℕ
    → (RecordId → Option (Result (List Neighbor)))
    → RecordId
    → RecordId
    → PathOptions
    → Option (Result (Option PathResult))
shortest_path fuel next from to options =
    if rid_eq from to
    then some (ok (some (record { node_rids = from ∷ []; edge_rids = [] })))
    else search next from to options.max_depth fuel ((from, (none, none)) ∷ []) ((from, 0) ∷ [])

-- `shortest_path` over the lists of edges of a file, with fuel for the search and for each list.
unfoldable pub path_between :
    {F : Type 0}
    → TopologyFile F
    → ℕ
    → ℕ
    → F
    → RecordId
    → RecordId
    → PathOptions
    → Option (Result (Option PathResult))
path_between files fuel walk file from to options =
    shortest_path fuel (neighbors files walk file options) from to options

pub record ConnectingSubgraph : Type 0 where
  pub node_rids : List RecordId
  pub edge_rids : List RecordId

-- A `HashSet` as a list without duplicates, which the result lists in some order.
unfoldable pub insert_rid : List RecordId → RecordId → List RecordId
insert_rid set rid = if any (λ (r : RecordId). rid_eq r rid) set then set else set ++ (rid ∷ [])

-- `extend`
unfoldable pub insert_all : List RecordId → List RecordId → List RecordId
insert_all set [] = set
insert_all set (rid ∷ rids) = insert_all (insert_rid set rid) rids

unfoldable pub add_path : ConnectingSubgraph → Option PathResult → ConnectingSubgraph
add_path found none = found
add_path found (some path) = record {
  node_rids = insert_all found.node_rids path.node_rids;
  edge_rids = insert_all found.edge_rids path.edge_rids;
}

module _ (fuel : ℕ) (next : RecordId → Option (Result (List Neighbor)))
    (options : PathOptions) where
  -- The inner loop: the paths from one node to those behind it.
  unfoldable pub connect_pairs :
      RecordId → List RecordId → ConnectingSubgraph → Option (Result ConnectingSubgraph)
  connect_pairs rid [] found = some (ok found)
  connect_pairs rid (other ∷ others) found =
      and_run (shortest_path fuel next rid other options)
        (λ path. connect_pairs rid others (add_path found path))

  -- The outer loop.
  unfoldable pub connect_nodes :
      List RecordId → ConnectingSubgraph → Option (Result ConnectingSubgraph)
  connect_nodes [] found = some (ok found)
  connect_nodes (rid ∷ rids) found =
      and_run (connect_pairs rid rids found) (λ found'.
        connect_nodes rids (record found' { node_rids = insert_rid found'.node_rids rid }))

  unfoldable pub connecting_subgraph : List RecordId → Option (Result ConnectingSubgraph)
  connecting_subgraph rids = connect_nodes rids (record { node_rids = []; edge_rids = [] })
