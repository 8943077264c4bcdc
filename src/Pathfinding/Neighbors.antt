-- ===== src/Pathfinding/Neighbors.antt =====
-- `neighbors`, on a node whose lists of edges end.
use chiffondb.Prelude.{
  ℕ, ◌<◌, ◌≡◌, refl, true, Bool-cases, inl, inr, if◌then◌else◌, Option, Option-cases, none, some,
  List, [], ◌∷◌, ◌++◌, ◌⊎◌, ◌↔◌, length, any, ok, ◌==◌, ==_iff, arith,
}
use mathlib.Core.List.{append-nil}
use chiffondb.Storage.Ids.{RecordId}
use chiffondb.Storage.Record.Node.{NodeRecord}
use chiffondb.Storage.Record.Edge.{EdgeRecord}
use chiffondb.Storage.Topology.{TopologyFile, out_list, in_list, first_edge, read_node}
use chiffondb.Storage.Topology.Chains.{Segment, collect_edge_chain-Segment}
use chiffondb.Pathfinding.{
  PathOptions, PathDirection, outgoing, incoming, both, edge_matches, matching, follows_outgoing,
  follows_incoming, join_results, map_found, neighbors, Neighbor,
}

-- The type of an edge is one of the wanted ones; where none are given, every type is.
abbrev pub OneOfTypes : List ℕ → ℕ → Type 0
OneOfTypes [] type_id = ⊥
OneOfTypes (id ∷ ids) type_id = (id ≡ type_id) ⊎ OneOfTypes ids type_id

abbrev pub TypeWanted : Option (List ℕ) → ℕ → Type 0
TypeWanted none type_id = Unit
TypeWanted (some ids) type_id = OneOfTypes ids type_id

-- The neighbours over a list of edges are those of the edges of a wanted type, in the list's order,
-- each with the edge's id and the node at its other end.
pub data Picked (types : Option (List ℕ)) (other_end : EdgeRecord → RecordId)
    : List EdgeRecord → List Neighbor → Type 0 where
  no_edges : Picked types other_end [] []
  wanted :
      (e : EdgeRecord) {es : List EdgeRecord} {ns : List Neighbor}
      → TypeWanted types e.edge_type_id
      → Picked types other_end es ns
      → Picked types other_end (e ∷ es) ((e.id, other_end e) ∷ ns)
  unwanted :
      (e : EdgeRecord) {es : List EdgeRecord} {ns : List Neighbor}
      → (TypeWanted types e.edge_type_id → ⊥)
      → Picked types other_end es ns
      → Picked types other_end (e ∷ es) ns

abbrev pub Targets : Option (List ℕ) → List EdgeRecord → List Neighbor → Type 0
Targets types = Picked types (λ (e : EdgeRecord). e.to_node)

abbrev pub Sources : Option (List ℕ) → List EdgeRecord → List Neighbor → Type 0
Sources types = Picked types (λ (e : EdgeRecord). e.from_node)

-- The neighbours of a node with these outgoing and incoming edges, by the direction of the search.
abbrev pub Around :
    PathDirection → Option (List ℕ) → List EdgeRecord → List EdgeRecord → List Neighbor → Type 0
Around outgoing types outs ins found = Targets types outs found
Around incoming types outs ins found = Sources types ins found
Around both types outs ins found =
    (targets : List Neighbor) × (sources : List Neighbor) × Targets types outs targets
    × Sources types ins sources
    × (found ≡ targets ++ sources)

any_type_iff :
    (ids : List ℕ) (type_id : ℕ)
    → (any (λ (id : ℕ). id == type_id) ids ≡ true) ↔ OneOfTypes ids type_id
any_type_iff [] type_id = ground arith
any_type_iff (id ∷ ids) type_id = ground (arith, ==_iff id type_id, any_type_iff ids type_id)

edge_matches_iff :
    (type_id : ℕ) (options : PathOptions)
    → (edge_matches type_id options ≡ true) ↔ TypeWanted options.edge_type_ids type_id
unfolding edge_matches
edge_matches_iff type_id options = elim (Option-cases options.edge_type_ids) [
  | inl every ↦ rw every (ground arith)
  | inr (ids, given) ↦ rw given (any_type_iff ids type_id)
]

matching-Picked :
    (options : PathOptions) (other_end : EdgeRecord → RecordId) (edges : List EdgeRecord)
    → Picked options.edge_type_ids other_end edges (matching options other_end edges)
unfolding matching
matching-Picked options other_end [] = no_edges
matching-Picked options other_end (e ∷ es) =
    let rest = matching-Picked options other_end es in
    elim (Bool-cases (edge_matches e.edge_type_id options)) [
      | inl hit ↦ rw hit (wanted e ((edge_matches_iff e.edge_type_id options).0 hit) rest)
      | inr miss ↦
          rw miss
            (unwanted e (λ t. absurd cc (miss, (edge_matches_iff e.edge_type_id options).1 t)) rest)
    ]

around :
    (d : PathDirection) (options : PathOptions) (outs ins : List EdgeRecord)
    → (found : List Neighbor) × (join_results
          (if follows_outgoing d
            then some (ok (matching options (λ (e : EdgeRecord). e.to_node) outs))
            else some (ok []))
          (if follows_incoming d
            then some (ok (matching options (λ (e : EdgeRecord). e.from_node) ins))
            else some (ok []))
        ≡ some (ok found))
      × Around d options.edge_type_ids outs ins found
unfolding join_results
around outgoing options outs ins =
    let targets = matching options (λ (e : EdgeRecord). e.to_node) outs in
    (
      targets ++ [],
      refl,
      rw (append-nil targets) (matching-Picked options (λ (e : EdgeRecord). e.to_node) outs),
    )
around incoming options outs ins = (
  matching options (λ (e : EdgeRecord). e.from_node) ins,
  refl,
  matching-Picked options (λ (e : EdgeRecord). e.from_node) ins,
)
around both options outs ins =
    let targets = matching options (λ (e : EdgeRecord). e.to_node) outs in
    let sources = matching options (λ (e : EdgeRecord). e.from_node) ins in
    (
      targets ++ sources,
      refl,
      (
        targets,
        sources,
        matching-Picked options (λ (e : EdgeRecord). e.to_node) outs,
        matching-Picked options (λ (e : EdgeRecord). e.from_node) ins,
        refl,
      ),
    )

-- On a node whose two lists of edges end, and with more fuel than either has edges, `neighbors`
-- returns the neighbours by the direction of the options: over the outgoing edges each with its
-- target, over the incoming ones each with its source, or both, the outgoing ones first; in the order
-- of the lists, and only of the edges whose type is wanted.
pub neighbors-Segment :
    {F : Type 0} (files : TopologyFile F) (fuel : ℕ) (file : F) (options : PathOptions)
    (rid : RecordId) (node : NodeRecord) (outs ins : List EdgeRecord)
    → read_node files file rid ≡ ok node
    → Segment files out_list file (first_edge out_list node) outs none
    → Segment files in_list file (first_edge in_list node) ins none
    → length outs < fuel
    → length ins < fuel
    → (found : List Neighbor) × (neighbors files fuel file options rid ≡ some (ok found))
      × Around options.direction options.edge_type_ids outs ins found
unfolding neighbors join_results map_found
neighbors-Segment files fuel file options rid node outs ins r ho hi fo fi =
    let o = collect_edge_chain-Segment files fuel out_list file rid node outs r ho fo in
    let i = collect_edge_chain-Segment files fuel in_list file rid node ins r hi fi in
    rw (o, i) (around options.direction options outs ins)
