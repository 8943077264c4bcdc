-- ===== src/Storage/Topology/Fields.antt =====
-- The ranges of the records' fields and bytes, in both directions.
use chiffondb.Prelude.{
  ℕ, ◌≤◌, ◌<◌, ◌^◌, ◌≡◌, refl, Option, none, some, List, [], ◌∷◌, length, drop, ok, arith,
  replicate, All-replicate, All-get_or, Bool-cases, inl, inr,
}
use native.Mathlib.Nat.{pow-le-pow_right}
use chiffondb.Bytes.Slices.{slice, All-patch, All-slice, length-take}
use chiffondb.Bytes.Words.{
  IsByte, IsBytes, from_le_bytes, from_le_bytes-lt, le_bytes_u16-IsBytes, le_bytes_u32-IsBytes,
}
use chiffondb.Bytes.Layout.{write_fields-IsBytes}
use chiffondb.Storage.Ids.{
  RecordId, IsRid, IsRidOption, encode_record_id, encode_record_id_6, decode_record_id,
  decode_record_id_6, null_record, bytes_eq,
}
use chiffondb.Storage.Record.Node
use chiffondb.Storage.Record.Edge
use chiffondb.Storage.Record.Node.{NodeRecord, IsNodeRecord, node_record_size}
use chiffondb.Storage.Record.Edge.{EdgeRecord, IsEdgeRecord, edge_record_size}

encode_record_id-IsBytes : (r : Option RecordId) → IsBytes (encode_record_id r)
unfolding encode_record_id null_record
encode_record_id-IsBytes none = omega arith
encode_record_id-IsBytes (some r) = All-patch IsByte 6 (0 ∷ []) _ (omega arith) (
    All-patch IsByte 4 _ _ (le_bytes_u16-IsBytes r.slot_id) (
      All-patch IsByte 0 _ _ (le_bytes_u32-IsBytes r.page_id)
        (All-replicate IsByte 7 0 (omega arith))))

encode_record_id_6-IsBytes : (r : RecordId) → IsBytes (encode_record_id_6 r)
unfolding encode_record_id_6
encode_record_id_6-IsBytes r = All-patch IsByte 4 _ _ (le_bytes_u16-IsBytes r.slot_id) (
    All-patch IsByte 0 _ _ (le_bytes_u32-IsBytes r.page_id)
      (All-replicate IsByte 6 0 (omega arith)))

pub serialize_node-IsBytes : (r : NodeRecord) → IsNodeRecord r → IsBytes (Node.serialize r)
unfolding Node.serialize
serialize_node-IsBytes r h =
    write_fields-IsBytes _ (replicate 64 0)
      (
        encode_record_id_6-IsBytes r.id,
        (
          le_bytes_u16-IsBytes r.node_type_id,
          (
            encode_record_id-IsBytes r.first_out_edge,
            (
              encode_record_id-IsBytes r.first_in_edge,
              (
                encode_record_id-IsBytes r.property_ref,
                (encode_record_id-IsBytes r.label_ref, ((h.flags_fits, tt), tt)),
              ),
            ),
          ),
        ),
      )
      (All-replicate IsByte 64 0 (omega arith))

pub serialize_edge-IsBytes : (r : EdgeRecord) → IsEdgeRecord r → IsBytes (Edge.serialize r)
unfolding Edge.serialize
serialize_edge-IsBytes r h =
    write_fields-IsBytes _ (replicate 64 0)
      (
        encode_record_id_6-IsBytes r.id,
        (
          le_bytes_u16-IsBytes r.edge_type_id,
          (
            encode_record_id_6-IsBytes r.from_node,
            (
              encode_record_id_6-IsBytes r.to_node,
              (
                encode_record_id-IsBytes r.next_out_edge,
                (
                  encode_record_id-IsBytes r.next_in_edge,
                  (
                    encode_record_id-IsBytes r.property_ref,
                    ((h.flags_fits, tt), (encode_record_id-IsBytes r.label_ref, tt)),
                  ),
                ),
              ),
            ),
          ),
        ),
      )
      (All-replicate IsByte 64 0 (omega arith))

-- A word read from at most `n` bytes.
from_le_bytes-slice :
    (off n : ℕ) (bytes : List ℕ) → IsBytes bytes → from_le_bytes (slice off n bytes) < 256 ^ n
unfolding slice
from_le_bytes-slice off n bytes h =
    let fits = from_le_bytes-lt (slice off n bytes) (All-slice IsByte off n bytes h) in
    let short : length (slice off n bytes) ≤ n = omega (arith, length-take n (drop off bytes)) in
    let wide : 256 ^ length (slice off n bytes) ≤ 256 ^ n = pow-le-pow_right (omega arith) short in
    omega arith

decode_record_id_6-IsRid : (bytes : List ℕ) → IsBytes bytes → IsRid (decode_record_id_6 bytes)
unfolding decode_record_id_6
decode_record_id_6-IsRid bytes h = record {
  page = from_le_bytes-slice 0 4 bytes h;
  slot = from_le_bytes-slice 4 2 bytes h;
}

decode_record_id-IsRidOption :
    (bytes : List ℕ) → IsBytes bytes → IsRidOption (decode_record_id bytes)
unfolding decode_record_id
decode_record_id-IsRidOption bytes h = elim (Bool-cases (bytes_eq bytes null_record)) [
  | inl e ↦ rw e tt
  | inr e ↦
      rw e
        (record { page = from_le_bytes-slice 0 4 bytes h; slot = from_le_bytes-slice 4 2 bytes h })
]

pub deserialize_node-IsNodeRecord :
    (bytes : List ℕ)
    → IsBytes bytes
    → (r : NodeRecord) × (Node.deserialize bytes ≡ ok r) × IsNodeRecord r
unfolding Node.deserialize
deserialize_node-IsNodeRecord bytes h =
    let fits = λ (off n : ℕ). All-slice IsByte off n bytes h in
    let zero_byte : IsByte 0 = omega arith in
    (
      _,
      refl,
      record {
        id_fits = decode_record_id_6-IsRid _ (fits 0 6);
        node_type_id_fits = from_le_bytes-slice 6 2 bytes h;
        first_out_edge_fits = decode_record_id-IsRidOption _ (fits 8 7);
        first_in_edge_fits = decode_record_id-IsRidOption _ (fits 15 7);
        property_ref_fits = decode_record_id-IsRidOption _ (fits 22 7);
        label_ref_fits = decode_record_id-IsRidOption _ (fits 29 7);
        flags_fits = All-get_or IsByte bytes 36 0 h zero_byte;
      },
    )

pub deserialize_edge-IsEdgeRecord :
    (bytes : List ℕ)
    → IsBytes bytes
    → (r : EdgeRecord) × (Edge.deserialize bytes ≡ ok r) × IsEdgeRecord r
unfolding Edge.deserialize
deserialize_edge-IsEdgeRecord bytes h =
    let fits = λ (off n : ℕ). All-slice IsByte off n bytes h in
    let zero_byte : IsByte 0 = omega arith in
    (
      _,
      refl,
      record {
        id_fits = decode_record_id_6-IsRid _ (fits 0 6);
        edge_type_id_fits = from_le_bytes-slice 6 2 bytes h;
        from_node_fits = decode_record_id_6-IsRid _ (fits 8 6);
        to_node_fits = decode_record_id_6-IsRid _ (fits 14 6);
        next_out_edge_fits = decode_record_id-IsRidOption _ (fits 20 7);
        next_in_edge_fits = decode_record_id-IsRidOption _ (fits 27 7);
        property_ref_fits = decode_record_id-IsRidOption _ (fits 34 7);
        flags_fits = All-get_or IsByte bytes 41 0 h zero_byte;
        label_ref_fits = decode_record_id-IsRidOption _ (fits 42 7);
      },
    )
