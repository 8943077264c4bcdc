-- ===== src/Schema/Validator/Consistent.antt =====
-- When a schema passes `validate`.
use chiffondb.Prelude.{
  sequence_iff, true, Option, none, some, List, [], ◌∷◌, String, ok, ◌≡◌, ◌↔◌, ◌⊎◌, arith, ◌>>=◌,
  All,
}
use chiffondb.Schema.Ast.{
  TypeExpr, int, float, boolean, date_time, string, json, blob, vector, list, dict, edge_ref, named,
  node_ref, FieldDef, BoundParam, Definition, node, edge, SchemaAst,
}
use chiffondb.Schema.Names.{contains}
use text.Mathlib.TextEquality.{eq_iff}
use chiffondb.Schema.Validator.{
  is_indexable_scalar, validate_edge_endpoint, node_names, param_names, validate_extends,
  validate_fields, validate_bound, validate_bounds, validate_definition, validate_definitions,
  validate,
}

-- A type that an index may key on.
abbrev pub Scalar : TypeExpr → Type 0
Scalar t = (t ≡ int) ⊎ ((t ≡ float) ⊎ ((t ≡ boolean) ⊎ ((t ≡ date_time) ⊎ (t ≡ string))))

abbrev pub FieldFits : FieldDef → Type 0
FieldFits field = ((field.indexed ≡ true) ⊎ (field.unique ≡ true)) → Scalar field.type_expr

-- A node of the schema has the name; the names of edges do not count.
abbrev pub IsNodeName : String → List Definition → Type 0
IsNodeName name [] = ⊥
IsNodeName name (node n ∷ definitions) = (n.name ≡ name) ⊎ IsNodeName name definitions
IsNodeName name (edge e ∷ definitions) = IsNodeName name definitions

abbrev pub IsParamName : String → List BoundParam → Type 0
IsParamName name [] = ⊥
IsParamName name (param ∷ params) = (param.name ≡ name) ⊎ IsParamName name params

abbrev pub NameKnown : List Definition → Option String → Type 0
NameKnown all none = Unit
NameKnown all (some name) = IsNodeName name all

abbrev pub BoundKnown : List Definition → BoundParam → Type 0
BoundKnown all param = NameKnown all param.bound

abbrev pub EndpointKnown : List Definition → List BoundParam → TypeExpr → Type 0
EndpointKnown all params (named name) = IsParamName name params ⊎ IsNodeName name all
EndpointKnown all params (node_ref name) = IsNodeName name all
EndpointKnown all params other = Unit

abbrev pub Consistent : List Definition → Definition → Type 0
Consistent all (node n) = NameKnown all n.extends × All FieldFits n.fields
Consistent all (edge e) =
    All (BoundKnown all) e.generic_params
    × EndpointKnown all e.generic_params e.from
    × EndpointKnown all e.generic_params e.to

node_names_iff :
    (definitions : List Definition) (name : String)
    → (contains (node_names definitions) name ≡ true) ↔ IsNodeName name definitions
unfolding contains node_names
node_names_iff [] name = ground arith
node_names_iff (node n ∷ definitions) name =
    ground (arith, eq_iff n.name name, node_names_iff definitions name)
node_names_iff (edge e ∷ definitions) name = node_names_iff definitions name

param_names_iff :
    (params : List BoundParam) (name : String)
    → (contains (param_names params) name ≡ true) ↔ IsParamName name params
unfolding contains param_names
param_names_iff [] name = ground arith
param_names_iff (param ∷ params) name =
    ground (arith, eq_iff param.name name, param_names_iff params name)

is_indexable_scalar_iff : (t : TypeExpr) → (is_indexable_scalar t ≡ true) ↔ Scalar t
unfolding is_indexable_scalar
is_indexable_scalar_iff int = ground arith
is_indexable_scalar_iff float = ground arith
is_indexable_scalar_iff boolean = ground arith
is_indexable_scalar_iff date_time = ground arith
is_indexable_scalar_iff string = ground arith
is_indexable_scalar_iff json = ground arith
is_indexable_scalar_iff blob = ground arith
is_indexable_scalar_iff (vector n) = ground arith
is_indexable_scalar_iff (list t) = ground arith
is_indexable_scalar_iff (dict k t) = ground arith
is_indexable_scalar_iff (node_ref n) = ground arith
is_indexable_scalar_iff (edge_ref n) = ground arith
is_indexable_scalar_iff (named n) = ground arith

validate_extends_iff :
    (name : String) (base : Option String) (all : List Definition)
    → (validate_extends name base (node_names all) ≡ ok tt) ↔ NameKnown all base
unfolding validate_extends
validate_extends_iff name none all = ground arith
validate_extends_iff name (some base) all = ground (arith, node_names_iff all base)

validate_fields_iff :
    (name : String) (fields : List FieldDef)
    → (validate_fields name fields ≡ ok tt) ↔ All FieldFits fields
unfolding validate_fields
validate_fields_iff name [] = ground arith
validate_fields_iff name (field ∷ fields) =
    ground (arith, is_indexable_scalar_iff field.type_expr, validate_fields_iff name fields)

validate_bound_iff :
    (name : String) (bound : Option String) (all : List Definition)
    → (validate_bound name bound (node_names all) ≡ ok tt) ↔ NameKnown all bound
unfolding validate_bound
validate_bound_iff name none all = ground arith
validate_bound_iff name (some bound) all = ground (arith, node_names_iff all bound)

validate_bounds_iff :
    (name : String) (params : List BoundParam) (all : List Definition)
    → (validate_bounds name params (node_names all) ≡ ok tt) ↔ All (BoundKnown all) params
unfolding validate_bounds
validate_bounds_iff name [] all = ground arith
validate_bounds_iff name (param ∷ params) all = ground (
  arith,
  sequence_iff (validate_bound name param.bound (node_names all))
      (validate_bounds name params (node_names all)),
  validate_bound_iff name param.bound all,
  validate_bounds_iff name params all,
)

validate_edge_endpoint_iff :
    (name side : String) (t : TypeExpr) (all : List Definition) (params : List BoundParam)
    → (validate_edge_endpoint name side t (node_names all) (param_names params) ≡ ok tt)
      ↔ EndpointKnown all params t
unfolding validate_edge_endpoint
validate_edge_endpoint_iff name side (node_ref n) all params = ground (arith, node_names_iff all n)
validate_edge_endpoint_iff name side (named n) all params =
    ground (arith, node_names_iff all n, param_names_iff params n)
validate_edge_endpoint_iff name side other all params = ground arith

validate_definition_iff :
    (all : List Definition) (definition : Definition)
    → (validate_definition (node_names all) definition ≡ ok tt) ↔ Consistent all definition
unfolding validate_definition
validate_definition_iff all (node n) = ground (
  arith,
  sequence_iff (validate_extends n.name n.extends (node_names all))
      (validate_fields n.name n.fields),
  validate_extends_iff n.name n.extends all,
  validate_fields_iff n.name n.fields,
)
validate_definition_iff all (edge e) =
    let params = param_names e.generic_params in
    let from = validate_edge_endpoint e.name "from" e.from (node_names all) params in
    let to = validate_edge_endpoint e.name "to" e.to (node_names all) params in
    ground (
      arith,
      sequence_iff (validate_bounds e.name e.generic_params (node_names all)) (from >>= λ _. to),
      sequence_iff from to,
      validate_bounds_iff e.name e.generic_params all,
      validate_edge_endpoint_iff e.name "from" e.from all e.generic_params,
      validate_edge_endpoint_iff e.name "to" e.to all e.generic_params,
    )

validate_definitions_iff :
    (all definitions : List Definition)
    → (validate_definitions (node_names all) definitions ≡ ok tt) ↔ All (Consistent all) definitions
unfolding validate_definitions
validate_definitions_iff all [] = ground arith
validate_definitions_iff all (d ∷ ds) = ground (
  arith,
  sequence_iff (validate_definition (node_names all) d) (validate_definitions (node_names all) ds),
  validate_definition_iff all d,
  validate_definitions_iff all ds,
)

-- A schema passes `validate` exactly where it is consistent: the base of every node and every bound
-- of an edge's parameters is the name of a node of the schema, `@index` and `@unique` stand only on
-- scalar fields of nodes (nothing is asked of the properties of edges), and an end of an edge is the
-- name of a node if it is a `NodeRef`, and the name of a node or of a parameter of the edge if it is
-- a name.
pub validate_iff :
    (ast : SchemaAst) → (validate ast ≡ ok tt) ↔ All (Consistent ast.definitions) ast.definitions
unfolding validate
validate_iff ast = validate_definitions_iff ast.definitions ast.definitions
