-- ===== src/Storage/Record/Node.antt =====
-- `NodeRecord`: 64 bytes, the fields at fixed offsets.
use chiffondb.Prelude.{
  ℕ, ◌≡◌, refl, ap, ◌∙◌, Option, List, [], ◌∷◌, length, arith, replicate, length-replicate, Result,
  ok, get_or,
}
use chiffondb.Bytes.Slices.{slice, get_or-slice}
use chiffondb.Bytes.Words.{
  IsU16, IsByte, le_bytes_u16, from_le_bytes, length-le_bytes_u16, from_le_bytes-le_bytes_u16,
}
use chiffondb.Bytes.Layout.{
  Field, write_fields, slice-write_fields, length-write_fields, length-zeros,
}
use chiffondb.Storage.Ids.{
  RecordId, IsRid, IsRidOption, encode_record_id, decode_record_id, encode_record_id_6,
  decode_record_id_6, length-encode_record_id, length-encode_record_id_6,
  decode_record_id-encode_record_id, decode_record_id_6-encode_record_id_6,
}

abbrev pub node_record_size : ℕ
node_record_size = 64

pub record NodeRecord : Type 0 where
  pub id : RecordId
  pub node_type_id : ℕ
  pub first_out_edge : Option RecordId
  pub first_in_edge : Option RecordId
  pub property_ref : Option RecordId
  pub label_ref : Option RecordId
  pub flags : ℕ

-- Every field in the range of its Rust type.
pub record IsNodeRecord (r : NodeRecord) : Type 0 where
  pub id_fits : IsRid r.id
  pub node_type_id_fits : IsU16 r.node_type_id
  pub first_out_edge_fits : IsRidOption r.first_out_edge
  pub first_in_edge_fits : IsRidOption r.first_in_edge
  pub property_ref_fits : IsRidOption r.property_ref
  pub label_ref_fits : IsRidOption r.label_ref
  pub flags_fits : IsByte r.flags

abbrev node_fields : NodeRecord → List Field
node_fields r =
    (0, encode_record_id_6 r.id)
    ∷ (6, le_bytes_u16 r.node_type_id)
    ∷ (8, encode_record_id r.first_out_edge)
    ∷ (15, encode_record_id r.first_in_edge)
    ∷ (22, encode_record_id r.property_ref)
    ∷ (29, encode_record_id r.label_ref)
    ∷ (36, r.flags ∷ [])
    ∷ []

unfoldable pub serialize : NodeRecord → List ℕ
serialize r = write_fields (node_fields r) (replicate node_record_size 0)

unfoldable pub deserialize : List ℕ → Result NodeRecord
deserialize buf = ok (record {
  id = decode_record_id_6 (slice 0 6 buf);
  node_type_id = from_le_bytes (slice 6 2 buf);
  first_out_edge = decode_record_id (slice 8 7 buf);
  first_in_edge = decode_record_id (slice 15 7 buf);
  property_ref = decode_record_id (slice 22 7 buf);
  label_ref = decode_record_id (slice 29 7 buf);
  flags = get_or buf 36 0;
})

pub length-serialize : (r : NodeRecord) → length (serialize r) ≡ node_record_size
unfolding serialize
length-serialize r =
    length-write_fields (node_fields r) (replicate node_record_size 0)
    ∙ length-replicate node_record_size 0

ruleset field_laws =
    (arith, length-encode_record_id, length-encode_record_id_6, length-le_bytes_u16, length-zeros)

module _ (r : NodeRecord) where
  slice_id : slice 0 6 (serialize r) ≡ encode_record_id_6 r.id
  unfolding serialize
  slice_id =
      slice-write_fields 0 (node_fields r) (replicate node_record_size 0) refl (omega field_laws)
        (omega field_laws) (omega field_laws)

  slice_node_type_id : slice 6 2 (serialize r) ≡ le_bytes_u16 r.node_type_id
  unfolding serialize
  slice_node_type_id =
      slice-write_fields 1 (node_fields r) (replicate node_record_size 0) refl (omega field_laws)
        (omega field_laws) (omega field_laws)

  slice_first_out_edge : slice 8 7 (serialize r) ≡ encode_record_id r.first_out_edge
  unfolding serialize
  slice_first_out_edge =
      slice-write_fields 2 (node_fields r) (replicate node_record_size 0) refl (omega field_laws)
        (omega field_laws) (omega field_laws)

  slice_first_in_edge : slice 15 7 (serialize r) ≡ encode_record_id r.first_in_edge
  unfolding serialize
  slice_first_in_edge =
      slice-write_fields 3 (node_fields r) (replicate node_record_size 0) refl (omega field_laws)
        (omega field_laws) (omega field_laws)

  slice_property_ref : slice 22 7 (serialize r) ≡ encode_record_id r.property_ref
  unfolding serialize
  slice_property_ref =
      slice-write_fields 4 (node_fields r) (replicate node_record_size 0) refl (omega field_laws)
        (omega field_laws) (omega field_laws)

  slice_label_ref : slice 29 7 (serialize r) ≡ encode_record_id r.label_ref
  unfolding serialize
  slice_label_ref =
      slice-write_fields 5 (node_fields r) (replicate node_record_size 0) refl (omega field_laws)
        (omega field_laws) (omega field_laws)

  slice_flags : slice 36 1 (serialize r) ≡ r.flags ∷ []
  unfolding serialize
  slice_flags =
      slice-write_fields 6 (node_fields r) (replicate node_record_size 0) refl (omega field_laws)
        (omega field_laws) (omega field_laws)

  get_or_flags : get_or (serialize r) 36 0 ≡ r.flags
  get_or_flags = get_or-slice _ (serialize r) 0 r.flags slice_flags

-- A record whose fields fit their types is read back from its 64 bytes.
pub deserialize-serialize_node :
    (r : NodeRecord) → IsNodeRecord r → deserialize (serialize r) ≡ ok r
unfolding deserialize
deserialize-serialize_node r h = ap ok (λ i. record {
  id =
      (ap decode_record_id_6 (slice_id r) ∙ decode_record_id_6-encode_record_id_6 r.id h.id_fits) i;
  node_type_id =
      (ap from_le_bytes (slice_node_type_id r)
          ∙ from_le_bytes-le_bytes_u16 r.node_type_id h.node_type_id_fits)
        i;
  first_out_edge =
      (ap decode_record_id (slice_first_out_edge r)
          ∙ decode_record_id-encode_record_id r.first_out_edge h.first_out_edge_fits)
        i;
  first_in_edge =
      (ap decode_record_id (slice_first_in_edge r)
          ∙ decode_record_id-encode_record_id r.first_in_edge h.first_in_edge_fits)
        i;
  property_ref =
      (ap decode_record_id (slice_property_ref r)
          ∙ decode_record_id-encode_record_id r.property_ref h.property_ref_fits)
        i;
  label_ref =
      (ap decode_record_id (slice_label_ref r)
          ∙ decode_record_id-encode_record_id r.label_ref h.label_ref_fits)
        i;
  flags = get_or_flags r i;
})
