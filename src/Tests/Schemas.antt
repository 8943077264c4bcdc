-- ===== src/Tests/Schemas.antt =====
-- schema/*.rs on a schema of two types.
use chiffondb.Prelude.{
  ℕ, true, false, none, some, List, [], ◌∷◌, String, ok, ◌≡◌, ◌≢◌, refl, ◌↔◌, All, arith,
}
use chiffondb.Schema.Ast.{string, node_ref, named, FieldDef, Definition, node, edge, SchemaAst}
use chiffondb.Schema.Names
use chiffondb.Schema.Validator
use chiffondb.Schema.Validator.Consistent
use chiffondb.Schema.Migration
use chiffondb.Schema.Migration.Allowed
use chiffondb.Schema.Values
use chiffondb.Schema.Values.{Value, null, str}
use chiffondb.Schema.Values.Typing
use chiffondb.Schema.Registry
use chiffondb.Schema.Registry.Bijective
use text.Mathlib.TextEquality.{eq_iff}

abbrev name_field : FieldDef
name_field = record { name = "name"; type_expr = string; indexed = true; unique = false }

abbrev person : Definition
person =
    node (record { name = "Person"; type_params = []; extends = none; fields = name_field ∷ [] })

abbrev knows : Definition
knows = edge (record {
  name = "Knows";
  generic_params = [];
  from = named "Person";
  to = node_ref "Person";
  props = [];
})

abbrev schema : SchemaAst
schema = record { definitions = person ∷ knows ∷ [] }

validate_iff_example :
    (Validator.validate schema ≡ ok tt)
    ↔ All (Consistent.Consistent (person ∷ knows ∷ [])) (person ∷ knows ∷ [])
validate_iff_example = Consistent.validate_iff schema

schema_passes : Validator.validate schema ≡ ok tt
unfolding Validator.validate Validator.validate_definitions Validator.validate_definition
    Validator.validate_extends Validator.validate_fields Validator.is_indexable_scalar
    Validator.validate_bounds Validator.validate_edge_endpoint Names.contains Validator.param_names
    Validator.node_names
schema_passes = refl

validate_migration_iff_example : (Migration.validate_migration schema schema ≡ ok tt) ↔ (
    Allowed.NodesKept (person ∷ knows ∷ []) (person ∷ knows ∷ [])
    × Allowed.EdgesKept (person ∷ knows ∷ []) (person ∷ knows ∷ []))
validate_migration_iff_example = Allowed.validate_migration_iff schema schema

abbrev row : List (String × Value ℕ)
row = ("name", str "Ada") ∷ []

abbrev nodes : List (String × ℕ)
nodes = ("Person", 1) ∷ ("City", 2) ∷ []

person_not_city : ◌≢◌ {A = String} "Person" "City"
person_not_city = ground (arith, eq_iff "Person" "City")

nodes-Distinct : Bijective.Distinct nodes
nodes-Distinct = (((person_not_city, omega arith), tt), (tt, tt))

registry_example :
    ((Registry.node_type_id (Registry.from_assignments nodes []) "City" ≡ some 2)
      ↔ (Registry.node_type_name (Registry.from_assignments nodes []) 2 ≡ some "City"))
    × ((Registry.edge_type_id (Registry.from_assignments nodes []) "City" ≡ some 2)
        ↔ (Registry.edge_type_name (Registry.from_assignments nodes []) 2 ≡ some "City"))
    × All (Bijective.Assigned (Registry.from_assignments nodes []).node_name_to_id) nodes
    × All (Bijective.Assigned (Registry.from_assignments nodes []).edge_name_to_id) []
registry_example = Bijective.registry_agrees nodes [] "City" 2 nodes-Distinct tt
