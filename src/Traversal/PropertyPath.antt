-- ===== src/Traversal/PropertyPath.antt =====
-- traversal/command.rs, `PropertyPath`: a property, or a value inside a nested JSON value.
pub mod Reached
use Prim.Native.String.{◌++◌}
use chiffondb.Prelude.{Option, none, some, List, [], ◌∷◌, String, if◌then◌else◌}
use chiffondb.Schema.Names.{get}
use chiffondb.Schema.Values.{Value, object, Members, empty_object, member}
use text.Mathlib.Text.{◌==◌ as str_eq}

pub data PropertyPath : Type 0 where
  flat : String → PropertyPath
  path : List String → PropertyPath

unfoldable pub join : String → List String → String
join separator [] = ""
join separator (segment ∷ []) = segment
join separator (segment ∷ next ∷ rest) = segment ++ (separator ++ join separator (next ∷ rest))

unfoldable pub display_name : PropertyPath → String
display_name (flat key) = key
display_name (path segments) = join "." segments

module _ {N : Type 0} where
  -- serde_json's `as_object`, and `get` on its map.
  unfoldable pub as_object : Value N → Option (Members N)
  as_object (object entries) = some entries
  as_object other = none

  unfoldable pub find_member : Members N → String → Option (Value N)
  find_member empty_object key = none
  find_member (member name value entries) key =
      if str_eq name key then some value else find_member entries key

  unfoldable pub get_segment : Value N → String → Option (Value N)
  get_segment current segment = elim (as_object current) [
    | none ↦ none
    | some entries ↦ find_member entries segment
  ]

  -- The loop over the rest of the path.
  unfoldable pub walk : List String → Value N → Option (Value N)
  walk [] current = some current
  walk (segment ∷ rest) current = elim (get_segment current segment) [
    | none ↦ none
    | some next ↦ walk rest next
  ]

  unfoldable pub resolve : PropertyPath → List (String × Value N) → Option (Value N)
  resolve (flat key) props = get props key
  resolve (path []) props = none
  resolve (path (first ∷ rest)) props = elim (get props first) [
    | none ↦ none
    | some current ↦ walk rest current
  ]
