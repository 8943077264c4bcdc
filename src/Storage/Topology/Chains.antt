-- ===== src/Storage/Topology/Chains.antt =====
-- `collect_edge_chain`, and the lists of edges that run through the edge records.
use chiffondb.Prelude.{
  ℕ, zero, suc, ◌<◌, ◌≡◌, refl, sym, ap, ◌∙◌, Option, none, some, List, [], ◌∷◌, length, ok, arith,
  ◌>>=◌,
}
use chiffondb.Storage.Ids.{RecordId}
use chiffondb.Storage.Record.Node.{NodeRecord}
use chiffondb.Storage.Record.Edge.{EdgeRecord}
use chiffondb.Storage.Topology.{
  TopologyFile, EdgeDirection, next_edge, first_edge, read_node, read_edge, collect_from,
  collect_edge_chain,
}

module _ {F : Type 0} (files : TopologyFile F) where
  -- The links lead from `start` through these edges to `end`; every edge lies in its own slot.
  abbrev pub Segment :
      EdgeDirection → F → Option RecordId → List EdgeRecord → Option RecordId → Type 0
  Segment direction file start [] end = start ≡ end
  Segment direction file start (edge ∷ edges) end =
      (start ≡ some edge.id)
      × (read_edge files file edge.id ≡ ok edge)
      × Segment direction file (next_edge direction edge) edges end

  -- One step of the walk, at an edge that is there.
  collect_from_step :
      (fuel : ℕ) (direction : EdgeDirection) (file : F) (edge : EdgeRecord)
      (rest : Option (chiffondb.Prelude.Result (List EdgeRecord)))
      → read_edge files file edge.id ≡ ok edge
      → collect_from files fuel file direction (next_edge direction edge) ≡ rest
      → collect_from files (suc fuel) file direction (some edge.id)
        ≡ elim rest [ none ↦ none | some r ↦ some (r >>= λ edges. ok (edge ∷ edges)) ]
  unfolding collect_from
  collect_from_step fuel direction file edge rest r e = rw (r, collect_from) (rw e refl)

  pub collect_from-Segment :
      (fuel : ℕ) (direction : EdgeDirection) (file : F) (start : Option RecordId)
      (edges : List EdgeRecord)
      → Segment direction file start edges none
      → length edges < fuel
      → collect_from files fuel file direction start ≡ some (ok edges)
  unfolding collect_from
  collect_from-Segment zero direction file start edges h enough = elim enough [ ]
  collect_from-Segment (suc fuel) direction file start [] h enough = rw h refl
  collect_from-Segment (suc fuel) direction file start (edge ∷ edges) (s, r, h) enough = rw s (
      collect_from_step fuel direction file edge (some (ok edges)) r
        (collect_from-Segment fuel direction file (next_edge direction edge) edges h (omega arith)))

  -- A node whose links of a direction lead through a list of edges, each in its own slot, to the
  -- end: with more fuel than there are edges the walk ends and returns exactly these edges in order.
  pub collect_edge_chain-Segment :
      (fuel : ℕ) (direction : EdgeDirection) (file : F) (rid : RecordId) (node : NodeRecord)
      (edges : List EdgeRecord)
      → read_node files file rid ≡ ok node
      → Segment direction file (first_edge direction node) edges none
      → length edges < fuel
      → collect_edge_chain files fuel file rid direction ≡ some (ok edges)
  unfolding collect_edge_chain
  collect_edge_chain-Segment fuel direction file rid node edges r h enough =
      rw (r, collect_edge_chain)
        (collect_from-Segment fuel direction file (first_edge direction node) edges h enough)

  collect_from_cycle :
      (fuel : ℕ) (direction : EdgeDirection) (file : F) (edge : EdgeRecord)
      (cycle edges : List EdgeRecord) (start : Option RecordId)
      → Segment direction file (some edge.id) (edge ∷ cycle) (some edge.id)
      → Segment direction file start edges (some edge.id)
      → collect_from files fuel file direction start ≡ none
  unfolding collect_from
  collect_from_cycle zero direction file edge cycle edges start c h = refl
  collect_from_cycle (suc fuel) direction file edge cycle [] start c h = rw h (
      collect_from_step fuel direction file edge none c.1
        (collect_from_cycle fuel direction file edge cycle cycle _ c c.2))
  collect_from_cycle (suc fuel) direction file edge cycle (first ∷ edges) start c (s, r, h) = rw s (
      collect_from_step fuel direction file first none r
        (collect_from_cycle fuel direction file edge cycle edges _ c h))

  -- Where the links of a node lead into a cycle, the walk is still running after any number of steps.
  pub collect_edge_chain_cycle :
      (fuel : ℕ) (direction : EdgeDirection) (file : F) (rid : RecordId) (node : NodeRecord)
      (edge : EdgeRecord) (cycle lead : List EdgeRecord)
      → read_node files file rid ≡ ok node
      → Segment direction file (first_edge direction node) lead (some edge.id)
      → Segment direction file (some edge.id) (edge ∷ cycle) (some edge.id)
      → collect_edge_chain files fuel file rid direction ≡ none
  unfolding collect_edge_chain
  collect_edge_chain_cycle fuel direction file rid node edge cycle lead r h c =
      rw (r, collect_edge_chain)
        (collect_from_cycle fuel direction file edge cycle lead (first_edge direction node) c h)
