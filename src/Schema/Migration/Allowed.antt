-- ===== src/Schema/Migration/Allowed.antt =====
-- Which migrations pass `validate_migration`.
use chiffondb.Prelude.{
  ==_iff, true, inl, inr, Option, Option-cases, none, some, List, [], ◌∷◌, String, ok, ◌>>=◌, ◌≡◌,
  refl, sym, ◌∙◌, sequence_iff, ◌↔◌, ap, arith, All,
}
use chiffondb.Schema.Ast.{
  TypeExpr, int, float, boolean, date_time, string, json, blob, vector, list, dict, node_ref,
  edge_ref, named, FieldDef, EdgeDef, Definition, SchemaAst,
}
use chiffondb.Schema.Names.{get}
use chiffondb.Schema.Migration.{
  type_compatible, FieldTypes, EdgeEntry, collect_map, node_map, edge_map, check_field,
  check_fields, check_node, check_nodes, check_end, check_edge, check_edges, validate_migration,
  field_types, add_nodes, add_edges,
}
use chiffondb.Schema.Migration.Latest.{
  last_fields, last_edge, last_type, map_some, entry_of, get-nodes, get-edges, get-types, nodes_iff,
  edges_iff,
}
use text.Mathlib.TextEquality.{eq_iff}

type_compatible_sound : (a b : TypeExpr) → type_compatible a b ≡ true → a ≡ b
unfolding type_compatible
type_compatible_sound int int h = refl
type_compatible_sound float float h = refl
type_compatible_sound boolean boolean h = refl
type_compatible_sound date_time date_time h = refl
type_compatible_sound string string h = refl
type_compatible_sound json json h = refl
type_compatible_sound blob blob h = refl
type_compatible_sound (vector a) (vector b) h = ground (arith, ==_iff a b)
type_compatible_sound (list a) (list b) h = ap list (type_compatible_sound a b h)
type_compatible_sound (dict ak av) (dict bk bv) h =
    ground (arith, type_compatible_sound ak bk, type_compatible_sound av bv)
type_compatible_sound (named a) (named b) h = ground (arith, eq_iff a b)
type_compatible_sound (node_ref a) (node_ref b) h = ground (arith, eq_iff a b)
type_compatible_sound (edge_ref a) (edge_ref b) h = ground (arith, eq_iff a b)
type_compatible_sound a b h = cc

type_compatible_refl : (a : TypeExpr) → type_compatible a a ≡ true
unfolding type_compatible
type_compatible_refl (vector a) = ground (arith, ==_iff a a)
type_compatible_refl (list a) = type_compatible_refl a
type_compatible_refl (dict k v) = ground (arith, type_compatible_refl k, type_compatible_refl v)
type_compatible_refl (named a) = ground (arith, eq_iff a a)
type_compatible_refl (node_ref a) = ground (arith, eq_iff a a)
type_compatible_refl (edge_ref a) = ground (arith, eq_iff a a)
type_compatible_refl other = refl

-- Two types are compatible exactly where they are the same type, down to every argument.
pub type_compatible_iff : (a b : TypeExpr) → (type_compatible a b ≡ true) ↔ (a ≡ b)
type_compatible_iff a b = (
  type_compatible_sound a b,
  λ e. ap (λ (t : TypeExpr). type_compatible a t) (sym e) ∙ type_compatible_refl a,
)

-- A field keeps its type where the old definition has it.
abbrev pub TypeKept : Option TypeExpr → TypeExpr → Type 0
TypeKept none new = Unit
TypeKept (some old) new = old ≡ new

abbrev pub FieldKept : FieldTypes → String × TypeExpr → Type 0
FieldKept olds (name, new) = TypeKept (get olds name) new

abbrev pub FieldsKept : Option FieldTypes → FieldTypes → Type 0
FieldsKept none news = Unit
FieldsKept (some olds) news = All (FieldKept (collect_map olds [])) news

abbrev pub NodeKept : List (String × FieldTypes) → String × FieldTypes → Type 0
NodeKept olds (name, new) = FieldsKept (get olds name) new

abbrev pub EntryKept : Option EdgeEntry → EdgeEntry → Type 0
EntryKept none new = Unit
EntryKept (some old) new =
    (old.from ≡ new.from) × (old.to ≡ new.to) × All (FieldKept (collect_map old.props [])) new.props

abbrev pub EdgeKept : List (String × EdgeEntry) → String × EdgeEntry → Type 0
EdgeKept olds (name, new) = EntryKept (get olds name) new

check_field_iff :
    (what name part field_name : String) (new : TypeExpr) (old : Option TypeExpr)
    → (check_field what name part field_name new old ≡ ok tt) ↔ TypeKept old new
unfolding check_field
check_field_iff what name part field_name new none = ground arith
check_field_iff what name part field_name new (some old) =
    ground (arith, type_compatible_iff old new)

check_fields_iff :
    (what name part : String) (olds news : FieldTypes)
    → (check_fields what name part olds news ≡ ok tt) ↔ All (FieldKept olds) news
unfolding check_fields
check_fields_iff what name part olds [] = ground arith
check_fields_iff what name part olds ((field_name, new) ∷ news) = ground (
  arith,
  sequence_iff (check_field what name part field_name new (get olds field_name))
      (check_fields what name part olds news),
  check_field_iff what name part field_name new (get olds field_name),
  check_fields_iff what name part olds news,
)

check_node_iff :
    (name : String) (new : FieldTypes) (old : Option FieldTypes)
    → (check_node name new old ≡ ok tt) ↔ FieldsKept old new
unfolding check_node
check_node_iff name new none = ground arith
check_node_iff name new (some old) = check_fields_iff "node" name "field" (collect_map old []) new

check_nodes_iff :
    (olds news : List (String × FieldTypes))
    → (check_nodes olds news ≡ ok tt) ↔ All (NodeKept olds) news
unfolding check_nodes
check_nodes_iff olds [] = ground arith
check_nodes_iff olds ((name, new) ∷ news) = ground (
  arith,
  sequence_iff (check_node name new (get olds name)) (check_nodes olds news),
  check_node_iff name new (get olds name),
  check_nodes_iff olds news,
)

check_end_iff :
    (name side : String) (old new : TypeExpr) → (check_end name side old new ≡ ok tt) ↔ (old ≡ new)
unfolding check_end
check_end_iff name side old new = ground (arith, type_compatible_iff old new)

check_edge_iff :
    (name : String) (new : EdgeEntry) (old : Option EdgeEntry)
    → (check_edge name new old ≡ ok tt) ↔ EntryKept old new
unfolding check_edge
check_edge_iff name new none = ground arith
check_edge_iff name new (some old) =
    let to = check_end name "to" old.to new.to in
    let props = check_fields "edge" name "prop" (collect_map old.props []) new.props in
    ground (
      arith,
      sequence_iff (check_end name "from" old.from new.from) (to >>= λ _. props),
      sequence_iff to props,
      check_end_iff name "from" old.from new.from,
      check_end_iff name "to" old.to new.to,
      check_fields_iff "edge" name "prop" (collect_map old.props []) new.props,
    )

check_edges_iff :
    (olds news : List (String × EdgeEntry))
    → (check_edges olds news ≡ ok tt) ↔ All (EdgeKept olds) news
unfolding check_edges
check_edges_iff olds [] = ground arith
check_edges_iff olds ((name, new) ∷ news) = ground (
  arith,
  sequence_iff (check_edge name new (get olds name)) (check_edges olds news),
  check_edge_iff name new (get olds name),
  check_edges_iff olds news,
)

-- A field of a new definition has the type that the old fields of its definition give its name, if
-- they give it one.
abbrev pub KeepsType : List FieldDef → FieldDef → Type 0
KeepsType before field = (t : TypeExpr) → last_type before field.name ≡ some t → t ≡ field.type_expr

-- A node type that both schemas have keeps the types of the fields that both have.
abbrev pub NodesKept : List Definition → List Definition → Type 0
NodesKept olds news =
    (name : String) (after : List FieldDef)
    → last_fields news name ≡ some after
    → (before : List FieldDef) → last_fields olds name ≡ some before
    → All (KeepsType before) after

-- An edge type that both schemas have keeps its ends and the types of the properties that both have.
abbrev pub EdgesKept : List Definition → List Definition → Type 0
EdgesKept olds news =
    (name : String) (after : EdgeDef)
    → last_edge news name ≡ some after
    → (before : EdgeDef) → last_edge olds name ≡ some before
    → (before.from ≡ after.from) × (before.to ≡ after.to) × All (KeepsType before.props) after.props

same_type_iff :
    (old : Option TypeExpr) (new : TypeExpr)
    → TypeKept old new ↔ ((t : TypeExpr) → old ≡ some t → t ≡ new)
same_type_iff none new = (λ u t e. absurd cc, λ h. tt)
same_type_iff (some old) new = (λ e t q. cc, λ h. h old refl)

fields_kept_iff :
    (before after : List FieldDef)
    → All (FieldKept (collect_map (field_types before) [])) (field_types after)
      ↔ All (KeepsType before) after
unfolding field_types
fields_kept_iff before [] = (λ u. tt, λ u. tt)
fields_kept_iff before (field ∷ fields) =
    let here = same_type_iff (last_type before field.name) field.type_expr in
    let rest = fields_kept_iff before fields in
    let found = get-types before field.name in
    (
      λ h. (here.0 (coe 0 1 (i. TypeKept (found i) field.type_expr) (h.0)), rest.0 (h.1)),
      λ h. (coe 1 0 (i. TypeKept (found i) field.type_expr) (here.1 (h.0)), rest.1 (h.1)),
    )

kept_node :
    (olds : List Definition) (name : String) (after : List FieldDef)
    → NodeKept (add_nodes olds []) (name, field_types after) ↔ (
        (before : List FieldDef)
        → last_fields olds name ≡ some before
        → All (KeepsType before) after)
kept_node olds name after =
    let found = get-nodes olds name in
    (
      λ h before e.
          (fields_kept_iff before after).0 (
            coe 0 1 (i. FieldsKept ((found ∙ ap (map_some field_types) e) i) (field_types after))
              h),
      λ h.
          coe 1 0 (i. FieldsKept (found i) (field_types after))
            (elim (Option-cases (last_fields olds name)) [
              | inl absent ↦
                  coe 1 0 (i. FieldsKept (map_some field_types (absent i)) (field_types after)) tt
              | inr (before, e) ↦
                  coe 1 0 (i. FieldsKept (map_some field_types (e i)) (field_types after))
                    ((fields_kept_iff before after).1 (h before e))
            ]),
    )

kept_edge :
    (olds : List Definition) (name : String) (after : EdgeDef)
    → EdgeKept (add_edges olds []) (name, entry_of after) ↔ (
        (before : EdgeDef)
        → last_edge olds name ≡ some before
        → (before.from ≡ after.from)
          × (before.to ≡ after.to)
          × All (KeepsType before.props) after.props)
kept_edge olds name after =
    let found = get-edges olds name in
    (
      λ h before e.
          let (from, to, props) =
            coe 0 1 (i. EntryKept ((found ∙ ap (map_some entry_of) e) i) (entry_of after)) h in
          (from, to, (fields_kept_iff before.props after.props).0 props),
      λ h.
          coe 1 0 (i. EntryKept (found i) (entry_of after))
            (elim (Option-cases (last_edge olds name)) [
              | inl absent ↦
                  coe 1 0 (i. EntryKept (map_some entry_of (absent i)) (entry_of after)) tt
              | inr (before, e) ↦
                  let (from, to, props) = h before e in
                  coe 1 0 (i. EntryKept (map_some entry_of (e i)) (entry_of after))
                    (from, to, (fields_kept_iff before.props after.props).1 props)
            ]),
    )

same_nodes_iff :
    (olds news : List Definition)
    → All (NodeKept (add_nodes olds [])) (add_nodes news []) ↔ NodesKept olds news
same_nodes_iff olds news =
    let every = nodes_iff (NodeKept (add_nodes olds [])) news in
    (
      λ all name after e. (kept_node olds name after).0 (every.0 all name after e),
      λ h. every.1 (λ name after e. (kept_node olds name after).1 (h name after e)),
    )

same_edges_iff :
    (olds news : List Definition)
    → All (EdgeKept (add_edges olds [])) (add_edges news []) ↔ EdgesKept olds news
same_edges_iff olds news =
    let every = edges_iff (EdgeKept (add_edges olds [])) news in
    (
      λ all name after e. (kept_edge olds name after).0 (every.0 all name after e),
      λ h. every.1 (λ name after e. (kept_edge olds name after).1 (h name after e)),
    )

-- A migration passes exactly where every node type that is in both schemas keeps the types of the
-- fields that it has in both, and every edge type that is in both keeps its ends and the types of the
-- properties that it has in both. Of several definitions of one name, the last one of a schema counts,
-- and of several old fields of one name the last one. A type that is in one schema only, a renamed one
-- too, is not looked at.
pub validate_migration_iff :
    (old new : SchemaAst)
    → (validate_migration old new ≡ ok tt)
      ↔ (NodesKept old.definitions new.definitions × EdgesKept old.definitions new.definitions)
unfolding validate_migration node_map edge_map
validate_migration_iff old new = ground (
  arith,
  sequence_iff (check_nodes (node_map old) (node_map new))
      (check_edges (edge_map old) (edge_map new)),
  check_nodes_iff (node_map old) (node_map new),
  check_edges_iff (edge_map old) (edge_map new),
  same_nodes_iff old.definitions new.definitions,
  same_edges_iff old.definitions new.definitions,
)
