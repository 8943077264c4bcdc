-- ===== src/Storage/Topology/Appends.antt =====
-- `append_out_edge` and `append_in_edge`.
use chiffondb.Prelude.{
  ℕ, suc, ◌<◌, ◌≡◌, ◌≢◌, sym, ap, ◌∙◌, Option, none, some, List, ◌∷◌, length, All, ok, >>=-ok,
}
use chiffondb.Storage.Ids.{RecordId}
use chiffondb.Storage.Record.Node.{NodeRecord}
use chiffondb.Storage.Record.Edge.{EdgeRecord}
use chiffondb.Storage.Topology.{
  TopologyFile, EdgeDirection, next_edge, first_edge, with_next, with_first, read_node, read_edge,
  write_node, write_edge, append_edge, collect_edge_chain,
}
use chiffondb.Storage.Topology.Contract.{IsTopologyFile, IsWritable}
use chiffondb.Storage.Topology.Records.{>>=_inverse}
use chiffondb.Storage.Topology.Changes.{
  read_node-IsNodeRecord, read_edge-IsEdgeRecord, write_node_effect, write_edge_effect,
}
use chiffondb.Storage.Topology.Totals.{write_node_total, write_edge_total}
use chiffondb.Storage.Topology.Chains.{Segment, collect_edge_chain-Segment}
use chiffondb.Storage.Topology.Links.{
  next_edge-with_next, id-with_next, first_edge-with_first, id-with_first, with_next-IsEdgeRecord,
  with_first-IsNodeRecord, first_edge-IsRidOption, Segment-kept_edges, All-apart,
}

module _ {F : Type 0} (files : TopologyFile F) {IsValid : F → Type 0}
    (laws : IsTopologyFile files IsValid) (direction : EdgeDirection) (file file' : F)
    (node : NodeRecord) (edge : EdgeRecord) where
  abbrev linked : EdgeRecord
  linked = with_next direction (first_edge direction node) edge

  abbrev headed : NodeRecord
  headed = with_first direction (some edge.id) node

  append_edge_writes :
      read_node files file node.id ≡ ok node
      → read_edge files file edge.id ≡ ok edge
      → append_edge files direction node.id edge.id file ≡ ok file'
      → (middle : F) × (write_edge files file linked ≡ ok middle)
        × (write_node files middle headed ≡ ok file')
  unfolding append_edge
  append_edge_writes rn re h = >>=_inverse (write_edge files file linked) _ file' (
      sym (
        >>=-ok (read_node files file node.id) _ node rn
        ∙ >>=-ok (read_edge files file edge.id) _ edge re)
      ∙ h)

  append_edge_changes :
      IsValid file
      → read_node files file node.id ≡ ok node
      → read_edge files file edge.id ≡ ok edge
      → append_edge files direction node.id edge.id file ≡ ok file'
      → (read_node files file' node.id ≡ ok headed)
        × (read_edge files file' edge.id ≡ ok linked)
        × ((place : RecordId)
            → node.id ≢ place
            → read_node files file' place ≡ read_node files file place)
        × ((place : RecordId)
            → edge.id ≢ place
            → read_edge files file' place ≡ read_edge files file place)
        × IsValid file'
  append_edge_changes v rn re h =
      let (middle, we, wn) = append_edge_writes rn re h in
      let node_fits = read_node-IsNodeRecord files laws file node.id node v rn in
      let edge_fits = read_edge-IsEdgeRecord files laws file edge.id edge v re in
      let (self_e, others_e, nodes_e, vm) =
        write_edge_effect files laws file middle linked v
          (with_next-IsEdgeRecord direction _ edge (first_edge-IsRidOption direction node node_fits)
            edge_fits)
          we in
      let (self_n, others_n, edges_n, after) =
        write_node_effect files laws middle file' headed vm
          (with_first-IsNodeRecord direction _ node edge_fits.id_fits node_fits) wn in
      let nid = id-with_first direction (some edge.id) node in
      let eid = id-with_next direction (first_edge direction node) edge in
      (
        ap (read_node files file') (sym nid) ∙ self_n,
        edges_n edge.id ∙ ap (read_edge files middle) (sym eid) ∙ self_e,
        λ place ne. others_n place (λ e. ne (sym nid ∙ e)) ∙ nodes_e place,
        λ place ne. edges_n place ∙ others_e place (λ e. ne (sym eid ∙ e)),
        after,
      )

  -- In a file of the contract's invariant, a node and an edge that stand in the slots of their ids, fuel
  -- for the longer list, and a list of the node in a direction
  -- that does not hold the edge: where the edge is appended without an error, the list of the node
  -- is the edge, linked to the former first one, and then the former list; and every chain of edges
  -- of either direction that does not hold the edge, and every other node, stays as it was, and
  -- the invariant holds again.
  pub append_edge_effect :
      (fuel : ℕ) (edges : List EdgeRecord)
      → IsValid file
      → read_node files file node.id ≡ ok node
      → read_edge files file edge.id ≡ ok edge
      → Segment files direction file (first_edge direction node) edges none
      → All (λ (e : EdgeRecord). edge.id ≢ e.id) edges
      → suc (length edges) < fuel
      → append_edge files direction node.id edge.id file ≡ ok file'
      → (collect_edge_chain files fuel file' node.id direction ≡ some (ok (linked ∷ edges)))
        × ((other : EdgeDirection) (start : Option RecordId) (others : List EdgeRecord)
              (end : Option RecordId)
            → All (λ (e : EdgeRecord). edge.id ≢ e.id) others
            → Segment files other file start others end
            → Segment files other file' start others end)
        × ((place : RecordId)
            → node.id ≢ place
            → read_node files file' place ≡ read_node files file place)
        × IsValid file'
  append_edge_effect fuel edges v rn re h apart enough a =
      let (node', edge', nodes, others, after) = append_edge_changes v rn re a in
      let kept =
        λ (d : EdgeDirection) (start : Option RecordId) (es : List EdgeRecord)
            (end : Option RecordId) (ne : All (λ (e : EdgeRecord). edge.id ≢ e.id) es).
          Segment-kept_edges files d file file' start es end
            (All-apart files file file' edge.id es others ne) in
      let eid = id-with_next direction (first_edge direction node) edge in
      let tail : Segment files direction file' (next_edge direction linked) edges none =
        rw (next_edge-with_next direction (first_edge direction node) edge)
          (kept direction _ edges none apart h) in
      let chain : Segment files direction file' (first_edge direction headed) (linked ∷ edges)
          none =
        (
          first_edge-with_first direction (some edge.id) node ∙ ap some (sym eid),
          ap (read_edge files file') eid ∙ edge',
          tail,
        ) in
      (
        collect_edge_chain-Segment files fuel direction file' node.id headed (linked ∷ edges) node'
            chain enough,
        kept,
        nodes,
        after,
      )

  -- A node and an edge that stand in the slots of their ids, in a file of the contract's invariant whose
  -- writes meet no error:
  -- appending the edge to the node succeeds.
  pub append_edge_total :
      IsWritable files
      → IsValid file
      → read_node files file node.id ≡ ok node
      → read_edge files file edge.id ≡ ok edge
      → (after : F) × (append_edge files direction node.id edge.id file ≡ ok after)
  unfolding append_edge
  append_edge_total total v rn re =
      let node_fits = read_node-IsNodeRecord files laws file node.id node v rn in
      let edge_fits = read_edge-IsEdgeRecord files laws file edge.id edge v re in
      let linked_fits =
        with_next-IsEdgeRecord direction _ edge (first_edge-IsRidOption direction node node_fits)
          edge_fits in
      let eid = id-with_next direction (first_edge direction node) edge in
      let nid = id-with_first direction (some edge.id) node in
      let (middle, w) =
        write_edge_total files laws total file linked edge v linked_fits
          (ap (read_edge files file) eid ∙ re) in
      let (self, others, nodes, vm) =
        write_edge_effect files laws file middle linked v linked_fits w in
      let (after, w') =
        write_node_total files laws total middle headed node vm
          (with_first-IsNodeRecord direction _ node edge_fits.id_fits node_fits)
          (ap (read_node files middle) nid ∙ nodes node.id ∙ rn) in
      (
        after,
        >>=-ok (read_node files file node.id) _ node rn
            ∙ >>=-ok (read_edge files file edge.id) _ edge re
            ∙ >>=-ok (write_edge files file linked) _ middle w
            ∙ w',
      )
