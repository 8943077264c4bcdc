-- ===== src/Schema/Registry.antt =====
-- schema/registry.rs: type names and their numbers.
pub mod Bijective
use chiffondb.Prelude.{ℕ, ◌==◌, Option, none, some, List, [], ◌∷◌, String, if◌then◌else◌}
use chiffondb.Schema.Names.{get, insert}

-- `HashMap<u16, String>`
unfoldable pub get_id : List (ℕ × String) → ℕ → Option String
get_id [] id = none
get_id ((key, name) ∷ entries) id = if key == id then some name else get_id entries id

unfoldable pub insert_id : List (ℕ × String) → ℕ → String → List (ℕ × String)
insert_id [] id new = (id, new) ∷ []
insert_id ((key, name) ∷ entries) id new =
    let rest = insert_id entries id new in
    if key == id then (id, new) ∷ entries else (key, name) ∷ rest

pub record SchemaRegistry : Type 0 where
  pub node_name_to_id : List (String × ℕ)
  pub node_id_to_name : List (ℕ × String)
  pub edge_name_to_id : List (String × ℕ)
  pub edge_id_to_name : List (ℕ × String)

-- The loop over the assignments of one kind.
unfoldable pub add_assignments :
    List (String × ℕ)
    → List (String × ℕ)
    → List (ℕ × String)
    → List (String × ℕ) × List (ℕ × String)
add_assignments [] names ids = (names, ids)
add_assignments ((name, id) ∷ assignments) names ids =
    add_assignments assignments (insert names name id) (insert_id ids id name)

unfoldable pub from_assignments : List (String × ℕ) → List (String × ℕ) → SchemaRegistry
from_assignments node_assignments edge_assignments = record {
  node_name_to_id = (add_assignments node_assignments [] []).0;
  node_id_to_name = (add_assignments node_assignments [] []).1;
  edge_name_to_id = (add_assignments edge_assignments [] []).0;
  edge_id_to_name = (add_assignments edge_assignments [] []).1;
}

unfoldable pub node_type_id : SchemaRegistry → String → Option ℕ
node_type_id registry name = get registry.node_name_to_id name

unfoldable pub edge_type_id : SchemaRegistry → String → Option ℕ
edge_type_id registry name = get registry.edge_name_to_id name

unfoldable pub node_type_name : SchemaRegistry → ℕ → Option String
node_type_name registry id = get_id registry.node_id_to_name id

unfoldable pub edge_type_name : SchemaRegistry → ℕ → Option String
edge_type_name registry id = get_id registry.edge_id_to_name id
