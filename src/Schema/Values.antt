-- ===== src/Schema/Values.antt =====
-- schema/validate_value.rs: JSON values against the types of a schema. serde_json's `Number` is a
-- parameter `N` with its two tests; its `Value` and its map have serde_json's documented cases.
pub mod Typing
use Prim.Native.String.{◌++◌}
use chiffondb.Prelude.{
  ℕ, zero, suc, ◌/◌, ◌%◌, ltb, ◌==◌, Bool, true, false, not, ◌&&◌, ◌||◌, Option, none, some, List,
  [], ◌∷◌, String, Result, ok, err, validation_error, if◌then◌else◌, ◌>>=◌,
}
use chiffondb.Schema.Ast.{
  TypeExpr, int, float, boolean, date_time, string, json, blob, vector, list, dict, node_ref,
  edge_ref, named, FieldDef,
}
use chiffondb.Schema.Names.{get}
use text.Mathlib.Text.{◌==◌ as str_eq}

mutual
  pub data Value (N : Type 0) : Type 0 where
    null : Value N
    bool : Bool → Value N
    number : N → Value N
    str : String → Value N
    array : Items N → Value N
    object : Members N → Value N

  pub data Items (N : Type 0) : Type 0 where
    nil : Items N
    cons : Value N → Items N → Items N

  pub data Members (N : Type 0) : Type 0 where
    empty_object : Members N
    member : String → Value N → Members N → Members N

unfoldable pub digit : ℕ → String
digit n =
    if n == 0
    then "0"
    else if n == 1
    then "1"
    else if n == 2
    then "2"
    else if n == 3
    then "3"
    else if n == 4
    then "4"
    else if n == 5
    then "5"
    else if n == 6
    then "6"
    else if n == 7
    then "7"
    else if n == 8
    then "8"
    else "9"

-- `{n}` of a number with at most `places` digits.
unfoldable pub decimal : ℕ → ℕ → String
decimal zero n = ""
decimal (suc places) n =
    let front = decimal places (n / 10) in if ltb n 10 then digit n else front ++ digit (n % 10)

-- A `u32` has at most ten digits.
unfoldable pub describe_type : TypeExpr → String
describe_type int = "Int"
describe_type float = "Float"
describe_type boolean = "Boolean"
describe_type date_time = "DateTime"
describe_type string = "String"
describe_type json = "Json"
describe_type blob = "Blob"
describe_type (vector n) = "Vector(" ++ (decimal 10 n ++ ")")
describe_type (list inner) = "List<" ++ (describe_type inner ++ ">")
describe_type (dict k v) = "Map<" ++ (describe_type k ++ (", " ++ (describe_type v ++ ">")))
describe_type (node_ref s) = "NodeRef<" ++ (s ++ ">")
describe_type (edge_ref s) = "EdgeRef<" ++ (s ++ ">")
describe_type (named s) = s

unfoldable pub describe_value : {N : Type 0} → Value N → String
describe_value null = "null"
describe_value (bool b) = "boolean"
describe_value (number n) = "number"
describe_value (str s) = "string"
describe_value (array items) = "array"
describe_value (object members) = "object"

-- `items.iter().all(|v| matches!(v, Value::Number(_)))`
unfoldable pub all_numbers : {N : Type 0} → Items N → Bool
all_numbers nil = true
all_numbers (cons (number n) items) = all_numbers items
all_numbers (cons other items) = false

-- `fields.iter().any(|f| &f.name == key)`
unfoldable pub has_field : List FieldDef → String → Bool
has_field [] key = false
has_field (field ∷ fields) key = str_eq field.name key || has_field fields key

module _ {N : Type 0} (is_i64 is_u64 : N → Bool) where
  unfoldable mutual
    pub value_matches_type : Value N → TypeExpr → Bool
    value_matches_type null ty = true
    value_matches_type value json = true
    value_matches_type (number n) int = is_i64 n || is_u64 n
    value_matches_type (number n) float = true
    value_matches_type (bool b) boolean = true
    value_matches_type (str s) string = true
    value_matches_type (str s) date_time = true
    value_matches_type (str s) blob = true
    value_matches_type (array items) blob = true
    value_matches_type (array items) (vector n) = all_numbers items
    value_matches_type (array items) (list inner) = items_match items inner
    value_matches_type (object members) (dict key_ty val_ty) = members_match members val_ty
    value_matches_type (str s) (node_ref name) = true
    value_matches_type (str s) (edge_ref name) = true
    value_matches_type (str s) (named name) = true
    value_matches_type value ty = false

    pub items_match : Items N → TypeExpr → Bool
    items_match nil ty = true
    items_match (cons value items) ty = value_matches_type value ty && items_match items ty

    pub members_match : Members N → TypeExpr → Bool
    members_match empty_object ty = true
    members_match (member key value members) ty =
        value_matches_type value ty && members_match members ty

  -- The loop over the keys of the property map.
  unfoldable pub validate_keys :
      String → List FieldDef → List (String × Value N) → Result (Unit {0})
  validate_keys type_label fields [] = ok tt
  validate_keys type_label fields ((key, value) ∷ properties) =
      let rest = validate_keys type_label fields properties in
      if not (has_field fields key)
      then err (validation_error (type_label ++ (": unknown field '" ++ (key ++ "'"))))
      else rest

  unfoldable pub validate_value : String → FieldDef → Option (Value N) → Result (Unit {0})
  validate_value type_label field none = ok tt
  validate_value type_label field (some value) =
      if not (value_matches_type value field.type_expr)
      then err (
          validation_error (
            type_label
            ++ (": field '"
                ++ (field.name
                    ++ ("' expected "
                        ++ (describe_type field.type_expr
                            ++ (", got " ++ describe_value value)))))))
      else ok tt

  -- The loop over the fields.
  unfoldable pub validate_values :
      String → List FieldDef → List (String × Value N) → Result (Unit {0})
  validate_values type_label [] properties = ok tt
  validate_values type_label (field ∷ fields) properties = do
    _ ← validate_value type_label field (get properties field.name)
    validate_values type_label fields properties

  unfoldable pub validate_properties :
      String → List FieldDef → List (String × Value N) → Result (Unit {0})
  validate_properties type_label fields properties = do
    _ ← validate_keys type_label fields properties
    validate_values type_label fields properties
