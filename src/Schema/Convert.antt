-- ===== src/Schema/Convert.antt =====
-- schema/convert.rs: the conversion of stored values to another scalar type. The numbers, their text
-- forms and `trim` are a parameter: 64-bit floats and serde_json's `Number` are not modelled.
pub mod Stable
use chiffondb.Prelude.{
  Bool, true, false, not, ◌&&◌, ◌||◌, Option, none, some, String, if◌then◌else◌,
}
use chiffondb.Schema.Ast.{TypeExpr, int, float, boolean, date_time, string}
use chiffondb.Schema.Values.{Value, bool, number, str}
use text.Mathlib.Text.{◌==◌ as str_eq}

-- `N` is `Number`, `I` is `i64`, `F` is `f64` and `J` is `i128`; the operations of the machine's numbers
-- that the code calls, its casts with `as` among them.
pub record Numbers (N I F J : Type 0) : Type 0 where
  pub is_i64 : N → Bool
  pub is_u64 : N → Bool
  pub is_f64 : N → Bool
  pub as_i64 : N → Option I
  pub as_f64 : N → Option F
  pub from_i64 : I → N
  pub from_f64 : F → Option N
  pub fract : F → F
  pub float_zero : F
  pub two_to_63 : F
  pub neg : F → F
  pub float_eq : F → F → Bool
  pub float_le : F → F → Bool
  pub float_lt : F → F → Bool
  pub float_as_i64 : F → I
  pub i64_as_float : I → F
  pub float_as_i128 : F → J
  pub i128_from : I → J
  pub i128_eq : J → J → Bool
  pub number_to_string : N → String
  pub trim : String → String
  pub parse_i64 : String → Option I
  pub parse_f64 : String → Option F

unfoldable pub scalar_type_from_name : String → Option TypeExpr
scalar_type_from_name name =
    if str_eq name "String"
    then some string
    else if str_eq name "Int"
    then some int
    else if str_eq name "Float"
    then some float
    else if str_eq name "Boolean"
    then some boolean
    else if str_eq name "DateTime"
    then some date_time
    else none

-- The closure of `conversion_supported`.
unfoldable pub scalar : TypeExpr → Bool
scalar string = true
scalar int = true
scalar float = true
scalar boolean = true
scalar date_time = true
scalar other = false

unfoldable pub pair_supported : TypeExpr → TypeExpr → Bool
pair_supported string to = true
pair_supported from string = true
pair_supported int float = true
pair_supported float int = true
pair_supported from to = false

unfoldable pub conversion_supported : TypeExpr → TypeExpr → Bool
conversion_supported from to =
    if not (scalar from) || not (scalar to) then false else pair_supported from to

-- `Option::map` and `?` on an `Option`.
abbrev pub map_option {ℓ κ} : {A : Type ℓ} {B : Type κ} → (A → B) → Option A → Option B
map_option f none = none
map_option f (some a) = some (f a)

abbrev pub and_then {ℓ κ} : {A : Type ℓ} {B : Type κ} → Option A → (A → Option B) → Option B
and_then none f = none
and_then (some a) f = f a

module _ {N I F J : Type 0} (numbers : Numbers N I F J) where
  -- `(-LIMIT..LIMIT).contains(&f)`, with `LIMIT` = 2^63.
  abbrev pub in_i64_range : F → Bool
  in_i64_range f =
      numbers.float_le (numbers.neg numbers.two_to_63) f && numbers.float_lt f numbers.two_to_63

  unfoldable pub float_to_int : F → Option (Value N)
  float_to_int f =
      if not (numbers.float_eq (numbers.fract f) numbers.float_zero) || not (in_i64_range f)
      then none
      else some (number (numbers.from_i64 (numbers.float_as_i64 f)))

  unfoldable pub int_to_float : I → Option (Value N)
  int_to_float i =
      if not
        (numbers.i128_eq (numbers.float_as_i128 (numbers.i64_as_float i)) (numbers.i128_from i))
      then none
      else map_option number (numbers.from_f64 (numbers.i64_as_float i))

  unfoldable pub parse_bool : String → Option (Value N)
  parse_bool s =
      if str_eq s "true"
      then some (bool true)
      else if str_eq s "false"
      then some (bool false)
      else none

  unfoldable pub convert_value : Value N → TypeExpr → Option (Value N)
  convert_value (str s) string = some (str s)
  convert_value (number n) string = some (str (numbers.number_to_string n))
  convert_value (bool b) string = some (str (if b then "true" else "false"))
  convert_value (number n) int =
      if numbers.is_i64 n then some (number n) else and_then (numbers.as_f64 n) float_to_int
  convert_value (str s) int =
      map_option (λ i. number (numbers.from_i64 i)) (numbers.parse_i64 (numbers.trim s))
  convert_value (number n) float =
      if numbers.is_f64 n then some (number n) else and_then (numbers.as_i64 n) int_to_float
  convert_value (str s) float =
      and_then (numbers.parse_f64 (numbers.trim s)) (λ f. map_option number (numbers.from_f64 f))
  convert_value (bool b) boolean = some (bool b)
  convert_value (str s) boolean = parse_bool (numbers.trim s)
  convert_value (str s) date_time = some (str s)
  convert_value value to = none
