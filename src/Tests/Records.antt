-- ===== src/Tests/Records.antt =====
-- storage/record.rs, on the records of its unit tests.
use chiffondb.Prelude.{◌≡◌, refl, none, some, [], ◌∷◌, ok, arith}
use chiffondb.Bytes.Slices
use chiffondb.Bytes.Words
use chiffondb.Storage.Ids.{encode_record_id}
use chiffondb.Storage.Record.Node.{NodeRecord}
use chiffondb.Storage.Record.Edge
use chiffondb.Storage.Record.Edge.{EdgeRecord}

abbrev node : NodeRecord
node = record {
  id = record { page_id = 1; slot_id = 0 };
  node_type_id = 42;
  first_out_edge = some (record { page_id = 2; slot_id = 3 });
  first_in_edge = none;
  property_ref = some (record { page_id = 5; slot_id = 7 });
  label_ref = none;
  flags = 0;
}

abbrev edge : EdgeRecord
edge = record {
  id = record { page_id = 1; slot_id = 0 };
  edge_type_id = 7;
  from_node = record { page_id = 10; slot_id = 2 };
  to_node = record { page_id = 20; slot_id = 5 };
  next_out_edge = some (record { page_id = 1; slot_id = 1 });
  next_in_edge = none;
  property_ref = none;
  flags = 0;
  label_ref = some (record { page_id = 5; slot_id = 3 });
}

record_id_bytes :
    encode_record_id (some (record { page_id = 258; slot_id = 3 })) ≡ 2 ∷ 1 ∷ 0 ∷ 0 ∷ 3 ∷ 0 ∷ 0 ∷ []
unfolding encode_record_id Slices.patch Words.le_bytes_u16 Words.le_bytes_u32
record_id_bytes = refl

edge_example : Edge.deserialize (Edge.serialize edge) ≡ ok edge
edge_example = Edge.deserialize-serialize_edge edge (omega arith)
