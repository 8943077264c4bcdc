-- ===== src/Schema/Migration/Latest.antt =====
-- The maps by name that `validate_migration` builds, against the definitions themselves: of the
-- definitions of one name the last one counts, and of the fields of one name the last one.
use chiffondb.Prelude.{
  true, false, Bool-cases, inl, inr, Option, Option-cases, none, some, List, [], ◌∷◌, String, ◌≡◌,
  refl, sym, ap, ◌∙◌, ◌↔◌, All, if◌then◌else◌, arith,
}
use chiffondb.Schema.Ast.{TypeExpr, FieldDef, EdgeDef, Definition, node, edge}
use chiffondb.Schema.Names.{get, insert, get-insert}
use chiffondb.Schema.Migration.{
  FieldTypes, EdgeEntry, field_types, collect_map, add_nodes, add_edges,
}
use text.Mathlib.Text.{◌==◌ as str_eq}
use text.Mathlib.TextEquality.{eq_iff}

abbrev pub or_else {ℓ} : {A : Type ℓ} → Option A → Option A → Option A
or_else none other = other
or_else (some a) other = some a

abbrev pub when_named {ℓ} : {A : Type ℓ} → String → String → A → Option A
when_named own name a = if str_eq own name then some a else none

-- The fields of the last node of a name, the last edge of a name, and the type of the last field of
-- a name.
unfoldable pub last_fields : List Definition → String → Option (List FieldDef)
last_fields [] name = none
last_fields (node n ∷ definitions) name =
    or_else (last_fields definitions name) (when_named n.name name n.fields)
last_fields (edge e ∷ definitions) name = last_fields definitions name

unfoldable pub last_edge : List Definition → String → Option EdgeDef
last_edge [] name = none
last_edge (node n ∷ definitions) name = last_edge definitions name
last_edge (edge e ∷ definitions) name =
    or_else (last_edge definitions name) (when_named e.name name e)

unfoldable pub last_type : List FieldDef → String → Option TypeExpr
last_type [] name = none
last_type (field ∷ fields) name =
    or_else (last_type fields name) (when_named field.name name field.type_expr)

abbrev pub map_some {ℓ κ} : {A : Type ℓ} {B : Type κ} → (A → B) → Option A → Option B
map_some f none = none
map_some f (some a) = some (f a)

abbrev pub entry_of : EdgeDef → EdgeEntry
entry_of e = record { from = e.from; to = e.to; props = field_types e.props }

-- What an insertion does to a lookup that later definitions may override.
step :
    {V : Type 0} (later : Option V) (map : List (String × V)) (own name : String) (v : V)
    → or_else later (get (insert map own v) name)
      ≡ or_else (or_else later (when_named own name v)) (get map name)
step (some w) map own name v = refl
step none map own name v = elim (Bool-cases (str_eq own name)) [
  | inl same ↦ get-insert map own v name ∙ (rw same refl)
  | inr differs ↦ get-insert map own v name ∙ (rw differs refl)
]

map-or_else :
    {A V : Type 0} (f : A → V) (later : Option A) (own name : String) (a : A)
    → or_else (map_some f later) (when_named own name (f a))
      ≡ map_some f (or_else later (when_named own name a))
map-or_else f (some w) own name a = refl
map-or_else f none own name a = elim (Bool-cases (str_eq own name)) [
  | inl same ↦ rw same refl
  | inr differs ↦ rw differs refl
]

get-add_nodes :
    (definitions : List Definition) (map : List (String × FieldTypes)) (name : String)
    → get (add_nodes definitions map) name
      ≡ or_else (map_some field_types (last_fields definitions name)) (get map name)
unfolding add_nodes last_fields
get-add_nodes [] map name = refl
get-add_nodes (node n ∷ ds) map name =
    get-add_nodes ds (insert map n.name (field_types n.fields)) name
    ∙ step (map_some field_types (last_fields ds name)) map n.name name (field_types n.fields)
    ∙ ap (λ (o : Option FieldTypes). or_else o (get map name))
        (map-or_else field_types (last_fields ds name) n.name name n.fields)
get-add_nodes (edge e ∷ ds) map name = get-add_nodes ds map name

get-add_edges :
    (definitions : List Definition) (map : List (String × EdgeEntry)) (name : String)
    → get (add_edges definitions map) name
      ≡ or_else (map_some entry_of (last_edge definitions name)) (get map name)
unfolding add_edges last_edge
get-add_edges [] map name = refl
get-add_edges (node n ∷ ds) map name = get-add_edges ds map name
get-add_edges (edge e ∷ ds) map name =
    get-add_edges ds (insert map e.name (entry_of e)) name
    ∙ step (map_some entry_of (last_edge ds name)) map e.name name (entry_of e)
    ∙ ap (λ (o : Option EdgeEntry). or_else o (get map name))
        (map-or_else entry_of (last_edge ds name) e.name name e)

or_else-none : {V : Type 0} (o : Option V) → or_else o none ≡ o
or_else-none none = refl
or_else-none (some v) = refl

pub get-nodes :
    (definitions : List Definition) (name : String)
    → get (add_nodes definitions []) name ≡ map_some field_types (last_fields definitions name)
unfolding get
get-nodes definitions name = get-add_nodes definitions [] name ∙ or_else-none _

pub get-edges :
    (definitions : List Definition) (name : String)
    → get (add_edges definitions []) name ≡ map_some entry_of (last_edge definitions name)
unfolding get
get-edges definitions name = get-add_edges definitions [] name ∙ or_else-none _

get-collect_map :
    (fields : List FieldDef) (map : FieldTypes) (name : String)
    → get (collect_map (field_types fields) map) name
      ≡ or_else (last_type fields name) (get map name)
unfolding collect_map field_types last_type
get-collect_map [] map name = refl
get-collect_map (f ∷ fs) map name =
    get-collect_map fs (insert map f.name f.type_expr) name
    ∙ step (last_type fs name) map f.name name f.type_expr

pub get-types :
    (fields : List FieldDef) (name : String)
    → get (collect_map (field_types fields) []) name ≡ last_type fields name
unfolding get
get-types fields name = get-collect_map fields [] name ∙ or_else-none _

-- A map has one entry for a name.
abbrev pub IsKeyed : {V : Type 0} → List (String × V) → Type 0
IsKeyed [] = Unit
IsKeyed ((key, v) ∷ entries) = (get entries key ≡ none) × IsKeyed entries

insert-IsKeyed :
    {V : Type 0} (map : List (String × V)) (name : String) (v : V)
    → IsKeyed map
    → IsKeyed (insert map name v)
unfolding insert get
insert-IsKeyed [] name v h = (refl, tt)
insert-IsKeyed ((key, old) ∷ entries) name v (fresh, h) = elim (Bool-cases (str_eq key name)) [
  | inl same ↦
      rw same (ap (λ (k : String). get entries k) (sym ((eq_iff key name).0 same)) ∙ fresh, h)
  | inr differs ↦
      let apart : str_eq name key ≡ false = ground (arith, eq_iff name key, eq_iff key name) in
      rw differs (get-insert entries name v key ∙ (rw apart fresh), insert-IsKeyed entries name v h)
]

add_nodes-IsKeyed :
    (definitions : List Definition) (map : List (String × FieldTypes))
    → IsKeyed map
    → IsKeyed (add_nodes definitions map)
unfolding add_nodes
add_nodes-IsKeyed [] map h = h
add_nodes-IsKeyed (node n ∷ ds) map h =
    add_nodes-IsKeyed ds (insert map n.name (field_types n.fields))
      (insert-IsKeyed map n.name (field_types n.fields) h)
add_nodes-IsKeyed (edge e ∷ ds) map h = add_nodes-IsKeyed ds map h

add_edges-IsKeyed :
    (definitions : List Definition) (map : List (String × EdgeEntry))
    → IsKeyed map
    → IsKeyed (add_edges definitions map)
unfolding add_edges
add_edges-IsKeyed [] map h = h
add_edges-IsKeyed (node n ∷ ds) map h = add_edges-IsKeyed ds map h
add_edges-IsKeyed (edge e ∷ ds) map h =
    add_edges-IsKeyed ds (insert map e.name (entry_of e)) (insert-IsKeyed map e.name (entry_of e) h)

-- Every entry of a map is what a lookup finds.
get_of_all :
    {V : Type 0} (P : String × V → Type 0) (map : List (String × V)) (name : String) (v : V)
    → All P map
    → get map name ≡ some v
    → P (name, v)
unfolding get
get_of_all P [] name v h e = absurd cc
get_of_all P ((key, w) ∷ entries) name v (p, ps) e = elim (Bool-cases (str_eq key name)) [
  | inl same ↦
      let k = (eq_iff key name).0 same in
      let q : w ≡ v = cc (rw same at e) in coe 0 1 (i. P (k i, q i)) p
  | inr differs ↦ get_of_all P entries name v ps (rw differs at e)
]

all_of_get :
    {V : Type 0} (P : String × V → Type 0) (map : List (String × V))
    → IsKeyed map
    → ((name : String) (v : V) → get map name ≡ some v → P (name, v))
    → All P map
unfolding get
all_of_get P [] k h = tt
all_of_get P ((key, w) ∷ entries) (fresh, k) h =
    let self : str_eq key key ≡ true = (eq_iff key key).1 refl in
    (
      h key w (rw self refl),
      all_of_get P entries k (λ name v e. h name v (elim (Bool-cases (str_eq key name)) [
        | inl same ↦
            let q = (eq_iff key name).0 same in
            absurd cc (sym (ap (λ (n : String). get entries n) q ∙ e) ∙ fresh)
        | inr differs ↦ rw differs e
      ])),
    )

pub nodes_iff :
    (P : String × FieldTypes → Type 0) (definitions : List Definition)
    → All P (add_nodes definitions []) ↔ (
        (name : String) (fields : List FieldDef)
        → last_fields definitions name ≡ some fields
        → P (name, field_types fields))
nodes_iff P definitions = (
  λ all name fields e.
      get_of_all P (add_nodes definitions []) name (field_types fields) all
        (get-nodes definitions name ∙ ap (map_some field_types) e),
  λ h. all_of_get P (add_nodes definitions []) (add_nodes-IsKeyed definitions [] tt) (λ name v e.
      elim (Option-cases (last_fields definitions name)) [
        | inl absent ↦
            absurd cc (sym e ∙ get-nodes definitions name ∙ ap (map_some field_types) absent)
        | inr (fields, found) ↦
            let q : field_types fields ≡ v =
              cc (sym (get-nodes definitions name ∙ ap (map_some field_types) found) ∙ e) in
            coe 0 1 (i. P (name, q i)) (h name fields found)
      ]),
)

pub edges_iff :
    (P : String × EdgeEntry → Type 0) (definitions : List Definition)
    → All P (add_edges definitions [])
      ↔ ((name : String) (e : EdgeDef) → last_edge definitions name ≡ some e → P (name, entry_of e))
edges_iff P definitions = (
  λ all name d e.
      get_of_all P (add_edges definitions []) name (entry_of d) all
        (get-edges definitions name ∙ ap (map_some entry_of) e),
  λ h. all_of_get P (add_edges definitions []) (add_edges-IsKeyed definitions [] tt) (λ name v e.
      elim (Option-cases (last_edge definitions name)) [
        | inl absent ↦
            absurd cc (sym e ∙ get-edges definitions name ∙ ap (map_some entry_of) absent)
        | inr (d, found) ↦
            let q : entry_of d ≡ v =
              cc (sym (get-edges definitions name ∙ ap (map_some entry_of) found) ∙ e) in
            coe 0 1 (i. P (name, q i)) (h name d found)
      ]),
)
