-- ===== src/Storage/Topology/Totals.antt =====
-- Writes that meet no I/O error: `write_node` and `write_edge` succeed on records that can be read.
use chiffondb.Prelude.{
  ℕ, ◌≡◌, inl, inr, sym, ◌∙◌, Bool-cases, List, length, ok, leb, >>=-ok, ◌<◌, leb_false→lt,
}
use chiffondb.Bytes.Words.{IsBytes}
use chiffondb.Storage.Ids.{RecordId}
use chiffondb.Storage.Page.{compute_slot_count, read_slot, write_slot}
use chiffondb.Storage.Page.Slots.{write_slot_effect}
use chiffondb.Storage.Record.Node
use chiffondb.Storage.Record.Edge
use chiffondb.Storage.Record.Node.{NodeRecord, IsNodeRecord}
use chiffondb.Storage.Record.Edge.{EdgeRecord, IsEdgeRecord}
use chiffondb.Storage.Topology.{
  TopologyFile, TopologyKind, node_kind, edge_kind, read_node, read_edge, write_node, write_edge,
}
use chiffondb.Storage.Topology.Contract.{IsTopologyFile, IsWritable}
use chiffondb.Storage.Topology.Fields.{serialize_node-IsBytes, serialize_edge-IsBytes}
use chiffondb.Storage.Topology.Records.{
  >>=_inverse, record_page, record_page-IsPage, read_record, write_record, read_node_lem,
  read_edge_lem, write_node_lem, write_edge_lem,
}

slot_in_range :
    (bytes : List ℕ) (slot : ℕ) (content : List ℕ)
    → read_slot (record_page bytes) slot ≡ ok content
    → slot < compute_slot_count 64
unfolding read_slot
slot_in_range bytes slot content h = elim (Bool-cases (leb (compute_slot_count 64) slot)) [
  | inl out ↦ absurd cc (rw out at h)
  | inr within ↦ leb_false→lt _ _ within
]

-- A record that can be read can be written, in a file whose writes meet no error.
pub write_record_total :
    {F : Type 0} (files : TopologyFile F) {IsValid : F → Type 0}
    → IsTopologyFile files IsValid
    → IsWritable files
    → (kind : TopologyKind) (rid : RecordId) (old content : List ℕ) (file : F) → IsValid file
    → read_record files kind file rid ≡ ok old
    → length content ≡ 64
    → IsBytes content
    → (file' : F) × (write_record files kind rid content file ≡ ok file')
unfolding read_record write_record
write_record_total files laws total kind rid old content file v h c f =
    elim (Bool-cases (leb (files.page_count kind file) rid.page_id)) [
      | inl out ↦ absurd cc (rw out at h)
      | inr within ↦
          let (bytes, r, h') =
            >>=_inverse (files.read_page kind rid.page_id file) _ old (rw within at h) in
          let (l, b) = laws.whole kind rid.page_id file bytes v r in
          let (page, w, valid, self, others, used) =
            write_slot_effect (record_page bytes) rid.slot_id content (record_page-IsPage bytes l b)
              (slot_in_range bytes rid.slot_id old h') c f in
          let (file', w') =
            total.writable kind rid.page_id bytes page.bytes file r valid.size valid.in_range in
          (
            file',
            rw within (
                >>=-ok (files.read_page kind rid.page_id file) _ bytes r
                ∙ >>=-ok (write_slot (record_page bytes) rid.slot_id content) _ page w
                ∙ w'),
          )
    ]

module _ {F : Type 0} (files : TopologyFile F) {IsValid : F → Type 0}
    (laws : IsTopologyFile files IsValid) (total : IsWritable files) where
  pub write_node_total :
      (file : F) (node old : NodeRecord)
      → IsValid file
      → IsNodeRecord node
      → read_node files file node.id ≡ ok old
      → (file' : F) × (write_node files file node ≡ ok file')
  write_node_total file node old v fits h =
      let (bytes, r, h') =
        >>=_inverse (read_record files node_kind file node.id) Node.deserialize old
          (sym (read_node_lem files file node.id) ∙ h) in
      let (file', w) =
        write_record_total files laws total node_kind node.id bytes (Node.serialize node) file v r
          (Node.length-serialize node) (serialize_node-IsBytes node fits) in
      (file', write_node_lem files file node ∙ w)

  pub write_edge_total :
      (file : F) (edge old : EdgeRecord)
      → IsValid file
      → IsEdgeRecord edge
      → read_edge files file edge.id ≡ ok old
      → (file' : F) × (write_edge files file edge ≡ ok file')
  write_edge_total file edge old v fits h =
      let (bytes, r, h') =
        >>=_inverse (read_record files edge_kind file edge.id) Edge.deserialize old
          (sym (read_edge_lem files file edge.id) ∙ h) in
      let (file', w) =
        write_record_total files laws total edge_kind edge.id bytes (Edge.serialize edge) file v r
          (Edge.length-serialize edge) (serialize_edge-IsBytes edge fits) in
      (file', write_edge_lem files file edge ∙ w)
