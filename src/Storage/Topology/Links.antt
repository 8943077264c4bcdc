-- ===== src/Storage/Topology/Links.antt =====
-- The link fields `next_edge` and `first_edge` of a direction, and segments whose edges stay.
use chiffondb.Prelude.{◌≡◌, ◌≢◌, refl, ◌∙◌, Option, List, [], ◌∷◌, All}
use chiffondb.Storage.Ids.{RecordId, IsRidOption}
use chiffondb.Storage.Record.Node.{NodeRecord, IsNodeRecord}
use chiffondb.Storage.Record.Edge.{EdgeRecord, IsEdgeRecord}
use chiffondb.Storage.Topology.{
  TopologyFile, EdgeDirection, out_list, in_list, next_edge, first_edge, with_next, with_first,
  read_edge,
}
use chiffondb.Storage.Topology.Chains.{Segment}

pub next_edge-with_next :
    (d : EdgeDirection) (next : Option RecordId) (edge : EdgeRecord)
    → next_edge d (with_next d next edge) ≡ next
unfolding next_edge with_next
next_edge-with_next out_list next edge = refl
next_edge-with_next in_list next edge = refl

pub id-with_next :
    (d : EdgeDirection) (next : Option RecordId) (edge : EdgeRecord)
    → (with_next d next edge).id ≡ edge.id
unfolding with_next
id-with_next out_list next edge = refl
id-with_next in_list next edge = refl

pub first_edge-with_first :
    (d : EdgeDirection) (first : Option RecordId) (node : NodeRecord)
    → first_edge d (with_first d first node) ≡ first
unfolding first_edge with_first
first_edge-with_first out_list first node = refl
first_edge-with_first in_list first node = refl

pub id-with_first :
    (d : EdgeDirection) (first : Option RecordId) (node : NodeRecord)
    → (with_first d first node).id ≡ node.id
unfolding with_first
id-with_first out_list first node = refl
id-with_first in_list first node = refl

pub with_next-IsEdgeRecord :
    (d : EdgeDirection) (next : Option RecordId) (edge : EdgeRecord)
    → IsRidOption next
    → IsEdgeRecord edge
    → IsEdgeRecord (with_next d next edge)
unfolding with_next
with_next-IsEdgeRecord out_list next edge n h = record {
  id_fits = h.id_fits;
  edge_type_id_fits = h.edge_type_id_fits;
  from_node_fits = h.from_node_fits;
  to_node_fits = h.to_node_fits;
  next_out_edge_fits = n;
  next_in_edge_fits = h.next_in_edge_fits;
  property_ref_fits = h.property_ref_fits;
  flags_fits = h.flags_fits;
  label_ref_fits = h.label_ref_fits;
}
with_next-IsEdgeRecord in_list next edge n h = record {
  id_fits = h.id_fits;
  edge_type_id_fits = h.edge_type_id_fits;
  from_node_fits = h.from_node_fits;
  to_node_fits = h.to_node_fits;
  next_out_edge_fits = h.next_out_edge_fits;
  next_in_edge_fits = n;
  property_ref_fits = h.property_ref_fits;
  flags_fits = h.flags_fits;
  label_ref_fits = h.label_ref_fits;
}

pub next_edge-IsRidOption :
    (d : EdgeDirection) (edge : EdgeRecord) → IsEdgeRecord edge → IsRidOption (next_edge d edge)
unfolding next_edge
next_edge-IsRidOption out_list edge h = h.next_out_edge_fits
next_edge-IsRidOption in_list edge h = h.next_in_edge_fits

pub with_first-IsNodeRecord :
    (d : EdgeDirection) (first : Option RecordId) (node : NodeRecord)
    → IsRidOption first
    → IsNodeRecord node
    → IsNodeRecord (with_first d first node)
unfolding with_first
with_first-IsNodeRecord out_list first node n h = record {
  id_fits = h.id_fits;
  node_type_id_fits = h.node_type_id_fits;
  first_out_edge_fits = n;
  first_in_edge_fits = h.first_in_edge_fits;
  property_ref_fits = h.property_ref_fits;
  label_ref_fits = h.label_ref_fits;
  flags_fits = h.flags_fits;
}
with_first-IsNodeRecord in_list first node n h = record {
  id_fits = h.id_fits;
  node_type_id_fits = h.node_type_id_fits;
  first_out_edge_fits = h.first_out_edge_fits;
  first_in_edge_fits = n;
  property_ref_fits = h.property_ref_fits;
  label_ref_fits = h.label_ref_fits;
  flags_fits = h.flags_fits;
}

pub first_edge-IsRidOption :
    (d : EdgeDirection) (node : NodeRecord) → IsNodeRecord node → IsRidOption (first_edge d node)
unfolding first_edge
first_edge-IsRidOption out_list node h = h.first_out_edge_fits
first_edge-IsRidOption in_list node h = h.first_in_edge_fits

-- The edges of a segment that read as before form it in the other file too.
pub Segment-kept_edges :
    {F : Type 0} (files : TopologyFile F) (direction : EdgeDirection) (file file' : F)
    (start : Option RecordId) (edges : List EdgeRecord) (end : Option RecordId)
    → All (λ (e : EdgeRecord). read_edge files file' e.id ≡ read_edge files file e.id) edges
    → Segment files direction file start edges end
    → Segment files direction file' start edges end
Segment-kept_edges files direction file file' start [] end same h = h
Segment-kept_edges files direction file file' start (e ∷ edges) end (r, same) (s, r', h) = (
  s,
  r ∙ r',
  Segment-kept_edges files direction file file' (next_edge direction e) edges end same h,
)

-- Slots that are not the written one read as before.
pub All-apart :
    {F : Type 0} (files : TopologyFile F) (file file' : F) (rid : RecordId)
    (edges : List EdgeRecord)
    → ((place : RecordId) → rid ≢ place → read_edge files file' place ≡ read_edge files file place)
    → All (λ (e : EdgeRecord). rid ≢ e.id) edges
    → All (λ (e : EdgeRecord). read_edge files file' e.id ≡ read_edge files file e.id) edges
All-apart files file file' rid [] others h = tt
All-apart files file file' rid (e ∷ edges) others (ne, h) =
    (others e.id ne, All-apart files file file' rid edges others h)
