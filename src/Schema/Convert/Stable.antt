-- ===== src/Schema/Convert/Stable.antt =====
-- A converted value fits its type and is converted no further.
use chiffondb.Prelude.{
  Bool, true, false, not, ◌||◌, Bool-cases, Option, none, some, Option-cases, String, ◌≡◌, refl,
  inl, inr, arith, if◌then◌else◌,
}
use chiffondb.Schema.Ast.{TypeExpr, int, float, boolean, date_time, string}
use chiffondb.Schema.Values.{Value, bool, number, str, value_matches_type}
use chiffondb.Schema.Validator.{is_indexable_scalar}
use chiffondb.Schema.Migration.{type_name}
use text.Mathlib.Text.{◌==◌ as str_eq}
use chiffondb.Schema.Convert.{
  Numbers, scalar_type_from_name, float_to_int, int_to_float, in_i64_range, parse_bool,
  convert_value, map_option,
}

-- What serde_json documents: an `i64` makes a number that `is_i64`, an `f64` one that `is_f64`.
pub record IsNumbers {N I F J : Type 0} (numbers : Numbers N I F J) : Type 0 where
  pub from_i64_law : (i : I) → numbers.is_i64 (numbers.from_i64 i) ≡ true
  pub from_f64_law : (f : F) (n : N) → numbers.from_f64 f ≡ some n → numbers.is_f64 n ≡ true

module _ {N I F J : Type 0} (numbers : Numbers N I F J) (laws : IsNumbers numbers) where
  -- The value fits the type and is left as it is by the conversion.
  Settled : TypeExpr → Value N → Type 0
  Settled to w =
      (value_matches_type numbers.is_i64 numbers.is_u64 w to ≡ true)
      × (convert_value numbers w to ≡ some w)

  made_of_i64 : (i : I) → Settled int (number (numbers.from_i64 i))
  unfolding Settled value_matches_type convert_value
  made_of_i64 i = ground (arith, laws.from_i64_law i)

  made_of_f64 : (f : F) (n : N) → numbers.from_f64 f ≡ some n → Settled float (number n)
  unfolding Settled value_matches_type convert_value
  made_of_f64 f n h = ground (arith, laws.from_f64_law f n h)

  map_from_i64 :
      (o : Option I) (w : Value N)
      → map_option (λ i. number (numbers.from_i64 i)) o ≡ some w
      → Settled int w
  map_from_i64 none w h = absurd cc
  map_from_i64 (some i) w h =
      let e : number (numbers.from_i64 i) ≡ w = cc in rw (← e) (made_of_i64 i)

  map_from_f64 :
      (f : F) (w : Value N) → map_option number (numbers.from_f64 f) ≡ some w → Settled float w
  map_from_f64 f w h = elim (Option-cases (numbers.from_f64 f)) [
    | inl fails ↦ absurd cc (rw fails at h)
    | inr (n, made) ↦ let e : number n ≡ w = cc (rw made at h) in rw (← e) (made_of_f64 f n made)
  ]

  int_to_float-Settled : (i : I) (w : Value N) → int_to_float numbers i ≡ some w → Settled float w
  unfolding int_to_float
  int_to_float-Settled i w h =
      elim (Bool-cases
        (numbers.i128_eq (numbers.float_as_i128 (numbers.i64_as_float i)) (numbers.i128_from i))) [
          | inl exact ↦ map_from_f64 (numbers.i64_as_float i) w (rw exact at h)
          | inr fails ↦ absurd cc (rw fails at h)
        ]

  float_to_int-Settled : (f : F) (w : Value N) → float_to_int numbers f ≡ some w → Settled int w
  unfolding float_to_int
  float_to_int-Settled f w h =
      elim (Bool-cases (
        not (numbers.float_eq (numbers.fract f) numbers.float_zero)
        || not (in_i64_range numbers f))) [
          | inl fails ↦ absurd cc (rw fails at h)
          | inr exact ↦ map_from_i64 (some (numbers.float_as_i64 f)) w (rw exact at h)
        ]

  keep_text :
      (s : String) (w : Value N)
      → ◌≡◌ {A = Option (Value N)} (some (str s)) (some w)
      → Settled string w
  unfolding Settled value_matches_type convert_value
  keep_text s w h = let e : str s ≡ w = cc in rw (← e) (refl, refl)

  keep_truth :
      (b : Bool) (w : Value N)
      → ◌≡◌ {A = Option (Value N)} (some (bool b)) (some w)
      → Settled boolean w
  unfolding Settled value_matches_type convert_value
  keep_truth b w h = let e : bool b ≡ w = cc in rw (← e) (refl, refl)

  keep_moment :
      (s : String) (w : Value N)
      → ◌≡◌ {A = Option (Value N)} (some (str s)) (some w)
      → Settled date_time w
  unfolding Settled value_matches_type convert_value
  keep_moment s w h = let e : str s ≡ w = cc in rw (← e) (refl, refl)

  parse_bool-Settled :
      (s : String) (w : Value N) → parse_bool numbers s ≡ some w → Settled boolean w
  unfolding parse_bool
  parse_bool-Settled s w h = elim (Bool-cases (str_eq s "true")) [
    | inl yes_true ↦ keep_truth true w (rw yes_true at h)
    | inr not_true ↦ elim (Bool-cases (str_eq s "false")) [
      | inl yes_false ↦ keep_truth false w (rw (not_true, yes_false) at h)
      | inr not_false ↦ absurd cc (rw (not_true, not_false) at h)
    ]
  ]

  number_to_int :
      (n : N) (w : Value N) → convert_value numbers (number n) int ≡ some w → Settled int w
  unfolding Settled value_matches_type convert_value
  number_to_int n w h = elim (Bool-cases (numbers.is_i64 n)) [
    | inl whole ↦ ground arith
    | inr other ↦ elim (Option-cases (numbers.as_f64 n)) [
      | inl fails ↦ absurd cc (rw (other, fails) at h)
      | inr (f, seen) ↦ float_to_int-Settled f w (rw (other, seen) at h)
    ]
  ]

  number_to_float :
      (n : N) (w : Value N) → convert_value numbers (number n) float ≡ some w → Settled float w
  unfolding Settled value_matches_type convert_value
  number_to_float n w h = elim (Bool-cases (numbers.is_f64 n)) [
    | inl real ↦ ground arith
    | inr other ↦ elim (Option-cases (numbers.as_i64 n)) [
      | inl fails ↦ absurd cc (rw (other, fails) at h)
      | inr (i, seen) ↦ int_to_float-Settled i w (rw (other, seen) at h)
    ]
  ]

  text_to_float :
      (s : String) (w : Value N) → convert_value numbers (str s) float ≡ some w → Settled float w
  unfolding convert_value
  text_to_float s w h = elim (Option-cases (numbers.parse_f64 (numbers.trim s))) [
    | inl fails ↦ absurd cc (rw fails at h)
    | inr (f, parsed) ↦ map_from_f64 f w (rw parsed at h)
  ]

  -- A converted value fits the type that it was converted to, and converting it once more gives it
  -- back. (`laws` says what serde_json documents of numbers made from an `i64` or an `f64`.)
  pub convert_value-Settled :
      (v : Value N) (to : TypeExpr) (w : Value N)
      → convert_value numbers v to ≡ some w
      → (value_matches_type numbers.is_i64 numbers.is_u64 w to ≡ true)
        × (convert_value numbers w to ≡ some w)
  unfolding Settled convert_value
  convert_value-Settled (str s) string w h = keep_text s w h
  convert_value-Settled (number n) string w h = keep_text (numbers.number_to_string n) w h
  convert_value-Settled (bool b) string w h = keep_text (if b then "true" else "false") w h
  convert_value-Settled (number n) int w h = number_to_int n w h
  convert_value-Settled (str s) int w h = map_from_i64 (numbers.parse_i64 (numbers.trim s)) w h
  convert_value-Settled (number n) float w h = number_to_float n w h
  convert_value-Settled (str s) float w h = text_to_float s w h
  convert_value-Settled (bool b) boolean w h = keep_truth b w h
  convert_value-Settled (str s) boolean w h = parse_bool-Settled (numbers.trim s) w h
  convert_value-Settled (str s) date_time w h = keep_moment s w h
  convert_value-Settled v to w h = absurd cc

-- The name of a type leads back to the type exactly for the types that a field can be converted to.
pub scalar_type_from_name-type_name :
    (t : TypeExpr)
    → scalar_type_from_name (type_name t) ≡ (if is_indexable_scalar t then some t else none)
unfolding scalar_type_from_name type_name is_indexable_scalar
scalar_type_from_name-type_name int = refl
scalar_type_from_name-type_name string = refl
scalar_type_from_name-type_name t = refl
