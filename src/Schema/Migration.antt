-- ===== src/Schema/Migration.antt =====
-- schema/migration.rs: which changes of a schema are allowed. A hash map is walked in an order that
-- the code does not fix; the model walks it in the order of its entries. The order decides only which
-- of several refusals is reported.
pub mod Latest
pub mod Allowed
use Prim.Native.String.{◌++◌}
use chiffondb.Prelude.{
  ◌==◌, Bool, true, false, not, ◌&&◌, Option, none, some, List, [], ◌∷◌, String, Result, ok, err,
  schema_error, if◌then◌else◌, ◌>>=◌,
}
use chiffondb.Schema.Ast.{
  TypeExpr, int, float, boolean, date_time, string, json, blob, vector, list, dict, node_ref,
  edge_ref, named, FieldDef, Definition, node, edge, SchemaAst,
}
use chiffondb.Schema.Names.{get, insert}
use text.Mathlib.Text.{◌==◌ as str_eq}

unfoldable pub type_compatible : TypeExpr → TypeExpr → Bool
type_compatible int int = true
type_compatible float float = true
type_compatible boolean boolean = true
type_compatible date_time date_time = true
type_compatible string string = true
type_compatible json json = true
type_compatible blob blob = true
type_compatible (vector a) (vector b) = a == b
type_compatible (list a) (list b) = type_compatible a b
type_compatible (dict ak av) (dict bk bv) = type_compatible ak bk && type_compatible av bv
type_compatible (named a) (named b) = str_eq a b
type_compatible (node_ref a) (node_ref b) = str_eq a b
type_compatible (edge_ref a) (edge_ref b) = str_eq a b
type_compatible old new = false

unfoldable pub type_name : TypeExpr → String
type_name int = "Int"
type_name float = "Float"
type_name boolean = "Boolean"
type_name date_time = "DateTime"
type_name string = "String"
type_name json = "Json"
type_name blob = "Blob"
type_name (vector n) = "Vector"
type_name (list t) = "List"
type_name (dict k t) = "Map"
type_name (node_ref n) = "NodeRef"
type_name (edge_ref n) = "EdgeRef"
type_name (named n) = "Named"

-- `Vec<(String, &TypeExpr)>`, and the entry of an edge.
abbrev pub FieldTypes : Type 0
FieldTypes = List (String × TypeExpr)

pub record EdgeEntry : Type 0 where
  pub from : TypeExpr
  pub to : TypeExpr
  pub props : FieldTypes

unfoldable pub field_types : List FieldDef → FieldTypes
field_types [] = []
field_types (field ∷ fields) = (field.name, field.type_expr) ∷ field_types fields

-- `collect` into a map: a later entry of a name replaces the earlier one.
unfoldable pub collect_map : FieldTypes → FieldTypes → FieldTypes
collect_map [] map = map
collect_map ((name, t) ∷ entries) map = collect_map entries (insert map name t)

-- The loops of `node_map` and `edge_map`, which add to the map so far.
unfoldable pub add_nodes : List Definition → List (String × FieldTypes) → List (String × FieldTypes)
add_nodes [] map = map
add_nodes (node n ∷ definitions) map =
    add_nodes definitions (insert map n.name (field_types n.fields))
add_nodes (edge e ∷ definitions) map = add_nodes definitions map

unfoldable pub add_edges : List Definition → List (String × EdgeEntry) → List (String × EdgeEntry)
add_edges [] map = map
add_edges (node n ∷ definitions) map = add_edges definitions map
add_edges (edge e ∷ definitions) map =
    add_edges definitions
      (insert map e.name (record { from = e.from; to = e.to; props = field_types e.props }))

unfoldable pub node_map : SchemaAst → List (String × FieldTypes)
node_map ast = add_nodes ast.definitions []

unfoldable pub edge_map : SchemaAst → List (String × EdgeEntry)
edge_map ast = add_edges ast.definitions []

-- One field of a new definition against the types of the old one. `what` and `part` are the words of
-- the message: "node" and "field", or "edge" and "prop".
unfoldable pub check_field :
    String → String → String → String → TypeExpr → Option TypeExpr → Result (Unit {0})
check_field what name part field_name new none = ok tt
check_field what name part field_name new (some old) =
    if not (type_compatible old new)
    then err (
        schema_error (
          what
          ++ (" '"
              ++ (name
                  ++ ("' "
                      ++ (part
                          ++ (" '"
                              ++ (field_name
                                  ++ ("': type change is not allowed (was "
                                      ++ (type_name old
                                          ++ (", now " ++ (type_name new ++ ")"))))))))))))
    else ok tt

unfoldable pub check_fields : String → String → String → FieldTypes → FieldTypes → Result (Unit {0})
check_fields what name part olds [] = ok tt
check_fields what name part olds ((field_name, new) ∷ news) = do
  _ ← check_field what name part field_name new (get olds field_name)
  check_fields what name part olds news

unfoldable pub check_node : String → FieldTypes → Option FieldTypes → Result (Unit {0})
check_node name new none = ok tt
check_node name new (some old) = check_fields "node" name "field" (collect_map old []) new

unfoldable pub check_nodes :
    List (String × FieldTypes) → List (String × FieldTypes) → Result (Unit {0})
check_nodes olds [] = ok tt
check_nodes olds ((name, new) ∷ news) = do
  _ ← check_node name new (get olds name)
  check_nodes olds news

unfoldable pub check_end : String → String → TypeExpr → TypeExpr → Result (Unit {0})
check_end name side old new =
    if not (type_compatible old new)
    then err (
        schema_error ("edge '" ++ (name ++ ("': changing '" ++ (side ++ "' type is not allowed")))))
    else ok tt

unfoldable pub check_edge : String → EdgeEntry → Option EdgeEntry → Result (Unit {0})
check_edge name new none = ok tt
check_edge name new (some old) = do
  _ ← check_end name "from" old.from new.from
  _ ← check_end name "to" old.to new.to
  check_fields "edge" name "prop" (collect_map old.props []) new.props

unfoldable pub check_edges :
    List (String × EdgeEntry) → List (String × EdgeEntry) → Result (Unit {0})
check_edges olds [] = ok tt
check_edges olds ((name, new) ∷ news) = do
  _ ← check_edge name new (get olds name)
  check_edges olds news

unfoldable pub validate_migration : SchemaAst → SchemaAst → Result (Unit {0})
validate_migration old new = do
  _ ← check_nodes (node_map old) (node_map new)
  check_edges (edge_map old) (edge_map new)
