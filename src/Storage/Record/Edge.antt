-- ===== src/Storage/Record/Edge.antt =====
-- `EdgeRecord`: 64 bytes, the fields at fixed offsets.
use chiffondb.Prelude.{
  ℕ, ◌≡◌, refl, ap, ◌∙◌, Option, List, [], ◌∷◌, length, arith, replicate, length-replicate, Result,
  ok, get_or,
}
use chiffondb.Bytes.Slices.{slice, get_or-slice}
use chiffondb.Bytes.Words.{
  IsU16, IsByte, le_bytes_u16, from_le_bytes, length-le_bytes_u16, from_le_bytes-le_bytes_u16,
}
use chiffondb.Bytes.Layout.{
  Field, write_fields, slice-write_fields, length-write_fields, length-zeros,
}
use chiffondb.Storage.Ids.{
  RecordId, IsRid, IsRidOption, encode_record_id, decode_record_id, encode_record_id_6,
  decode_record_id_6, length-encode_record_id, length-encode_record_id_6,
  decode_record_id-encode_record_id, decode_record_id_6-encode_record_id_6,
}

abbrev pub edge_record_size : ℕ
edge_record_size = 64

pub record EdgeRecord : Type 0 where
  pub id : RecordId
  pub edge_type_id : ℕ
  pub from_node : RecordId
  pub to_node : RecordId
  pub next_out_edge : Option RecordId
  pub next_in_edge : Option RecordId
  pub property_ref : Option RecordId
  pub flags : ℕ
  pub label_ref : Option RecordId

-- Every field in the range of its Rust type.
pub record IsEdgeRecord (r : EdgeRecord) : Type 0 where
  pub id_fits : IsRid r.id
  pub edge_type_id_fits : IsU16 r.edge_type_id
  pub from_node_fits : IsRid r.from_node
  pub to_node_fits : IsRid r.to_node
  pub next_out_edge_fits : IsRidOption r.next_out_edge
  pub next_in_edge_fits : IsRidOption r.next_in_edge
  pub property_ref_fits : IsRidOption r.property_ref
  pub flags_fits : IsByte r.flags
  pub label_ref_fits : IsRidOption r.label_ref

abbrev edge_fields : EdgeRecord → List Field
edge_fields r =
    (0, encode_record_id_6 r.id)
    ∷ (6, le_bytes_u16 r.edge_type_id)
    ∷ (8, encode_record_id_6 r.from_node)
    ∷ (14, encode_record_id_6 r.to_node)
    ∷ (20, encode_record_id r.next_out_edge)
    ∷ (27, encode_record_id r.next_in_edge)
    ∷ (34, encode_record_id r.property_ref)
    ∷ (41, r.flags ∷ [])
    ∷ (42, encode_record_id r.label_ref)
    ∷ []

unfoldable pub serialize : EdgeRecord → List ℕ
serialize r = write_fields (edge_fields r) (replicate edge_record_size 0)

unfoldable pub deserialize : List ℕ → Result EdgeRecord
deserialize buf = ok (record {
  id = decode_record_id_6 (slice 0 6 buf);
  edge_type_id = from_le_bytes (slice 6 2 buf);
  from_node = decode_record_id_6 (slice 8 6 buf);
  to_node = decode_record_id_6 (slice 14 6 buf);
  next_out_edge = decode_record_id (slice 20 7 buf);
  next_in_edge = decode_record_id (slice 27 7 buf);
  property_ref = decode_record_id (slice 34 7 buf);
  flags = get_or buf 41 0;
  label_ref = decode_record_id (slice 42 7 buf);
})

pub length-serialize : (r : EdgeRecord) → length (serialize r) ≡ edge_record_size
unfolding serialize
length-serialize r =
    length-write_fields (edge_fields r) (replicate edge_record_size 0)
    ∙ length-replicate edge_record_size 0

ruleset field_laws =
    (arith, length-encode_record_id, length-encode_record_id_6, length-le_bytes_u16, length-zeros)

module _ (r : EdgeRecord) where
  slice_id : slice 0 6 (serialize r) ≡ encode_record_id_6 r.id
  unfolding serialize
  slice_id =
      slice-write_fields 0 (edge_fields r) (replicate edge_record_size 0) refl (omega field_laws)
        (omega field_laws) (omega field_laws)

  slice_edge_type_id : slice 6 2 (serialize r) ≡ le_bytes_u16 r.edge_type_id
  unfolding serialize
  slice_edge_type_id =
      slice-write_fields 1 (edge_fields r) (replicate edge_record_size 0) refl (omega field_laws)
        (omega field_laws) (omega field_laws)

  slice_from_node : slice 8 6 (serialize r) ≡ encode_record_id_6 r.from_node
  unfolding serialize
  slice_from_node =
      slice-write_fields 2 (edge_fields r) (replicate edge_record_size 0) refl (omega field_laws)
        (omega field_laws) (omega field_laws)

  slice_to_node : slice 14 6 (serialize r) ≡ encode_record_id_6 r.to_node
  unfolding serialize
  slice_to_node =
      slice-write_fields 3 (edge_fields r) (replicate edge_record_size 0) refl (omega field_laws)
        (omega field_laws) (omega field_laws)

  slice_next_out_edge : slice 20 7 (serialize r) ≡ encode_record_id r.next_out_edge
  unfolding serialize
  slice_next_out_edge =
      slice-write_fields 4 (edge_fields r) (replicate edge_record_size 0) refl (omega field_laws)
        (omega field_laws) (omega field_laws)

  slice_next_in_edge : slice 27 7 (serialize r) ≡ encode_record_id r.next_in_edge
  unfolding serialize
  slice_next_in_edge =
      slice-write_fields 5 (edge_fields r) (replicate edge_record_size 0) refl (omega field_laws)
        (omega field_laws) (omega field_laws)

  slice_property_ref : slice 34 7 (serialize r) ≡ encode_record_id r.property_ref
  unfolding serialize
  slice_property_ref =
      slice-write_fields 6 (edge_fields r) (replicate edge_record_size 0) refl (omega field_laws)
        (omega field_laws) (omega field_laws)

  slice_flags : slice 41 1 (serialize r) ≡ r.flags ∷ []
  unfolding serialize
  slice_flags =
      slice-write_fields 7 (edge_fields r) (replicate edge_record_size 0) refl (omega field_laws)
        (omega field_laws) (omega field_laws)

  slice_label_ref : slice 42 7 (serialize r) ≡ encode_record_id r.label_ref
  unfolding serialize
  slice_label_ref =
      slice-write_fields 8 (edge_fields r) (replicate edge_record_size 0) refl (omega field_laws)
        (omega field_laws) (omega field_laws)

  get_or_flags : get_or (serialize r) 41 0 ≡ r.flags
  get_or_flags = get_or-slice _ (serialize r) 0 r.flags slice_flags

-- A record whose fields fit their types is read back from its 64 bytes.
pub deserialize-serialize_edge :
    (r : EdgeRecord) → IsEdgeRecord r → deserialize (serialize r) ≡ ok r
unfolding deserialize
deserialize-serialize_edge r h = ap ok (λ i. record {
  id =
      (ap decode_record_id_6 (slice_id r) ∙ decode_record_id_6-encode_record_id_6 r.id h.id_fits) i;
  edge_type_id =
      (ap from_le_bytes (slice_edge_type_id r)
          ∙ from_le_bytes-le_bytes_u16 r.edge_type_id h.edge_type_id_fits)
        i;
  from_node =
      (ap decode_record_id_6 (slice_from_node r)
          ∙ decode_record_id_6-encode_record_id_6 r.from_node h.from_node_fits)
        i;
  to_node =
      (ap decode_record_id_6 (slice_to_node r)
          ∙ decode_record_id_6-encode_record_id_6 r.to_node h.to_node_fits)
        i;
  next_out_edge =
      (ap decode_record_id (slice_next_out_edge r)
          ∙ decode_record_id-encode_record_id r.next_out_edge h.next_out_edge_fits)
        i;
  next_in_edge =
      (ap decode_record_id (slice_next_in_edge r)
          ∙ decode_record_id-encode_record_id r.next_in_edge h.next_in_edge_fits)
        i;
  property_ref =
      (ap decode_record_id (slice_property_ref r)
          ∙ decode_record_id-encode_record_id r.property_ref h.property_ref_fits)
        i;
  flags = get_or_flags r i;
  label_ref =
      (ap decode_record_id (slice_label_ref r)
          ∙ decode_record_id-encode_record_id r.label_ref h.label_ref_fits)
        i;
})
