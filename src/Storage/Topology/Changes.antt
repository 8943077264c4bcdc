-- ===== src/Storage/Topology/Changes.antt =====
-- `read_node`, `write_node`, `read_edge`, `write_edge`: what a write changes, on whole records.
use chiffondb.Prelude.{
  ℕ, ◌+◌, ◌*◌, ◌/◌, ◌≡◌, ◌≢◌, inl, inr, sym, ◌∙◌, Bool-cases, List, ok, arith, leb, >>=-ok,
}
use chiffondb.Bytes.Slices.{All-slice}
use chiffondb.Bytes.Words.{IsByte, IsBytes}
use chiffondb.Storage.Ids.{RecordId}
use chiffondb.Storage.Page.{Page, read_slot}
use chiffondb.Storage.Record.Node
use chiffondb.Storage.Record.Edge
use chiffondb.Storage.Record.Node.{NodeRecord, IsNodeRecord, deserialize-serialize_node}
use chiffondb.Storage.Record.Edge.{EdgeRecord, IsEdgeRecord, deserialize-serialize_edge}
use chiffondb.Storage.Topology.{
  TopologyFile, TopologyKind, node_kind, edge_kind, read_node, read_edge, write_node, write_edge,
}
use chiffondb.Storage.Topology.Contract.{IsTopologyFile}
use chiffondb.Storage.Topology.Fields.{
  serialize_node-IsBytes, serialize_edge-IsBytes, deserialize_node-IsNodeRecord,
  deserialize_edge-IsEdgeRecord,
}
use chiffondb.Storage.Topology.Records.{
  >>=_inverse, record_page, read_record, write_record_effect, read_node_lem, read_edge_lem,
  write_node_lem, write_edge_lem,
}

read_slot-IsBytes :
    (page : Page) (slot : ℕ) (content : List ℕ)
    → IsBytes page.bytes
    → read_slot page slot ≡ ok content
    → IsBytes content
unfolding read_slot
read_slot-IsBytes page slot content h e = ground (
  arith,
  All-slice IsByte ((page.slot_count + 7) / 8 + slot * page.slot_size) page.slot_size page.bytes h,
)

module _ {F : Type 0} (files : TopologyFile F) {IsValid : F → Type 0}
    (laws : IsTopologyFile files IsValid) where
  read_record-IsBytes :
      (kind : TopologyKind) (file : F) (rid : RecordId) (content : List ℕ)
      → IsValid file
      → read_record files kind file rid ≡ ok content
      → IsBytes content
  unfolding read_record
  read_record-IsBytes kind file rid content v h =
      elim (Bool-cases (leb (files.page_count kind file) rid.page_id)) [
        | inl out ↦ absurd cc (rw out at h)
        | inr within ↦
            let (bytes, r, h') =
              >>=_inverse (files.read_page kind rid.page_id file) _ content (rw within at h) in
            read_slot-IsBytes (record_page bytes) rid.slot_id content
              (laws.whole kind rid.page_id file bytes v r).1 h'
      ]

  -- A record that is read has its fields in the ranges of their types.
  pub read_node-IsNodeRecord :
      (file : F) (rid : RecordId) (node : NodeRecord)
      → IsValid file
      → read_node files file rid ≡ ok node
      → IsNodeRecord node
  read_node-IsNodeRecord file rid node v h =
      let (bytes, r, h') =
        >>=_inverse (read_record files node_kind file rid) Node.deserialize node
          (sym (read_node_lem files file rid) ∙ h) in
      let (node', e, fits) =
        deserialize_node-IsNodeRecord bytes (read_record-IsBytes node_kind file rid bytes v r) in
      let same : node' ≡ node = cc in rw (← same) fits

  pub read_edge-IsEdgeRecord :
      (file : F) (rid : RecordId) (edge : EdgeRecord)
      → IsValid file
      → read_edge files file rid ≡ ok edge
      → IsEdgeRecord edge
  read_edge-IsEdgeRecord file rid edge v h =
      let (bytes, r, h') =
        >>=_inverse (read_record files edge_kind file rid) Edge.deserialize edge
          (sym (read_edge_lem files file rid) ∙ h) in
      let (edge', e, fits) =
        deserialize_edge-IsEdgeRecord bytes (read_record-IsBytes edge_kind file rid bytes v r) in
      let same : edge' ≡ edge = cc in rw (← same) fits

  -- A node that is written is read back; every other node and every edge reads as before.
  pub write_node_effect :
      (file file' : F) (node : NodeRecord)
      → IsValid file
      → IsNodeRecord node
      → write_node files file node ≡ ok file'
      → (read_node files file' node.id ≡ ok node)
        × ((place : RecordId)
            → node.id ≢ place
            → read_node files file' place ≡ read_node files file place)
        × ((place : RecordId) → read_edge files file' place ≡ read_edge files file place)
        × IsValid file'
  write_node_effect file file' node v fits h =
      let (self, others, after) =
        write_record_effect files laws node_kind node.id (Node.serialize node) file file' v
          (Node.length-serialize node) (serialize_node-IsBytes node fits)
          (sym (write_node_lem files file node) ∙ h) in
      (
        read_node_lem files file' node.id
            ∙ >>=-ok (read_record files node_kind file' node.id) Node.deserialize
                (Node.serialize node) self
            ∙ deserialize-serialize_node node fits,
        λ place ne.
            read_node_lem files file' place
            ∙ rw (others node_kind place (inr ne)) (sym (read_node_lem files file place)),
        λ place.
            read_edge_lem files file' place
            ∙ rw (others edge_kind place (inl (λ e. cc))) (sym (read_edge_lem files file place)),
        after,
      )

  -- An edge that is written is read back; every other edge and every node reads as before.
  pub write_edge_effect :
      (file file' : F) (edge : EdgeRecord)
      → IsValid file
      → IsEdgeRecord edge
      → write_edge files file edge ≡ ok file'
      → (read_edge files file' edge.id ≡ ok edge)
        × ((place : RecordId)
            → edge.id ≢ place
            → read_edge files file' place ≡ read_edge files file place)
        × ((place : RecordId) → read_node files file' place ≡ read_node files file place)
        × IsValid file'
  write_edge_effect file file' edge v fits h =
      let (self, others, after) =
        write_record_effect files laws edge_kind edge.id (Edge.serialize edge) file file' v
          (Edge.length-serialize edge) (serialize_edge-IsBytes edge fits)
          (sym (write_edge_lem files file edge) ∙ h) in
      (
        read_edge_lem files file' edge.id
            ∙ >>=-ok (read_record files edge_kind file' edge.id) Edge.deserialize
                (Edge.serialize edge) self
            ∙ deserialize-serialize_edge edge fits,
        λ place ne.
            read_edge_lem files file' place
            ∙ rw (others edge_kind place (inr ne)) (sym (read_edge_lem files file place)),
        λ place.
            read_node_lem files file' place
            ∙ rw (others node_kind place (inl (λ e. cc))) (sym (read_node_lem files file place)),
        after,
      )
