-- ===== src/Schema/Validator.antt =====
-- schema/validator.rs: the consistency of a schema.
pub mod Consistent
use Prim.Native.String.{◌++◌}
use chiffondb.Prelude.{
  Bool, true, false, not, ◌&&◌, ◌||◌, Option, none, some, List, [], ◌∷◌, String, Result, ok, err,
  schema_error, if◌then◌else◌, ◌>>=◌,
}
use chiffondb.Schema.Ast.{
  TypeExpr, int, float, boolean, date_time, string, named, node_ref, FieldDef, BoundParam, NodeDef,
  EdgeDef, Definition, node, edge, SchemaAst,
}
use chiffondb.Schema.Names.{contains}

unfoldable pub is_indexable_scalar : TypeExpr → Bool
is_indexable_scalar int = true
is_indexable_scalar float = true
is_indexable_scalar boolean = true
is_indexable_scalar date_time = true
is_indexable_scalar string = true
is_indexable_scalar other = false

unfoldable pub validate_edge_endpoint :
    String → String → TypeExpr → List String → List String → Result (Unit {0})
validate_edge_endpoint edge_name side (named name) node_names param_names =
    if not (contains param_names name) && not (contains node_names name)
    then err (
        schema_error (
          "edge '"
          ++ (edge_name
              ++ ("' " ++ (side ++ (" references unknown node type '" ++ (name ++ "'")))))))
    else ok tt
validate_edge_endpoint edge_name side (node_ref name) node_names param_names =
    if not (contains node_names name)
    then err (
        schema_error (
          "edge '"
          ++ (edge_name
              ++ ("' " ++ (side ++ (" NodeRef references unknown node type '" ++ (name ++ "'")))))))
    else ok tt
validate_edge_endpoint edge_name side other node_names param_names = ok tt

-- `filter_map` over the definitions.
unfoldable pub node_names : List Definition → List String
node_names [] = []
node_names (node n ∷ definitions) = n.name ∷ node_names definitions
node_names (edge e ∷ definitions) = node_names definitions

unfoldable pub param_names : List BoundParam → List String
param_names [] = []
param_names (param ∷ params) = param.name ∷ param_names params

unfoldable pub validate_extends : String → Option String → List String → Result (Unit {0})
validate_extends name none names = ok tt
validate_extends name (some base) names =
    if not (contains names base)
    then err (schema_error ("node '" ++ (name ++ ("' extends unknown type '" ++ (base ++ "'")))))
    else ok tt

-- The loop over the fields of a node.
unfoldable pub validate_fields : String → List FieldDef → Result (Unit {0})
validate_fields name [] = ok tt
validate_fields name (field ∷ fields) =
    let rest = validate_fields name fields in
    if (field.indexed || field.unique) && not (is_indexable_scalar field.type_expr)
    then err (
        schema_error (
          "node '"
          ++ (name
              ++ ("' field '"
                  ++ (field.name
                      ++ "': @index/@unique requires a scalar type (Int/Float/Boolean/DateTime/String)")))))
    else rest

unfoldable pub validate_bound : String → Option String → List String → Result (Unit {0})
validate_bound name none names = ok tt
validate_bound name (some bound) names =
    if not (contains names bound)
    then err (
        schema_error
          ("edge '" ++ (name ++ ("' generic bound '" ++ (bound ++ "' references unknown type")))))
    else ok tt

-- The loop over the generic parameters of an edge.
unfoldable pub validate_bounds : String → List BoundParam → List String → Result (Unit {0})
validate_bounds name [] names = ok tt
validate_bounds name (param ∷ params) names = do
  _ ← validate_bound name param.bound names
  validate_bounds name params names

unfoldable pub validate_definition : List String → Definition → Result (Unit {0})
validate_definition names (node n) = do
  _ ← validate_extends n.name n.extends names
  validate_fields n.name n.fields
validate_definition names (edge e) = do
  _ ← validate_bounds e.name e.generic_params names
  _ ← validate_edge_endpoint e.name "from" e.from names (param_names e.generic_params)
  validate_edge_endpoint e.name "to" e.to names (param_names e.generic_params)

-- The loop over the definitions.
unfoldable pub validate_definitions : List String → List Definition → Result (Unit {0})
validate_definitions names [] = ok tt
validate_definitions names (definition ∷ definitions) = do
  _ ← validate_definition names definition
  validate_definitions names definitions

unfoldable pub validate : SchemaAst → Result (Unit {0})
validate ast = validate_definitions (node_names ast.definitions) ast.definitions
