-- ===== src/Tests/Conversions.antt =====
-- schema/convert.rs with small numbers: a whole number or a real one, each a natural number.
use chiffondb.Prelude.{
  ℕ, ◌==◌, leb, ltb, Bool, true, false, Option, none, some, ◌≡◌, refl, ◌⊎◌, inl, inr,
}
use chiffondb.Schema.Values.{number}
use chiffondb.Schema.Convert.{Numbers, convert_value, scalar_type_from_name}
use chiffondb.Schema.Convert.Stable.{IsNumbers}
use chiffondb.Schema.Ast.{float}

is_whole : ℕ ⊎ ℕ → Bool
is_whole (inl n) = true
is_whole (inr n) = false

is_real : ℕ ⊎ ℕ → Bool
is_real (inl n) = false
is_real (inr n) = true

whole_part : ℕ ⊎ ℕ → Option ℕ
whole_part (inl n) = some n
whole_part (inr n) = none

real_part : ℕ ⊎ ℕ → Option ℕ
real_part (inl n) = some n
real_part (inr n) = some n

abbrev small : Numbers (ℕ ⊎ ℕ) ℕ ℕ ℕ
small = record {
  is_i64 = is_whole;
  is_u64 = is_whole;
  is_f64 = is_real;
  as_i64 = whole_part;
  as_f64 = real_part;
  from_i64 = inl;
  from_f64 = λ f. some (inr f);
  fract = λ f. 0;
  float_zero = 0;
  two_to_63 = 9223372036854775808;
  neg = λ f. 0;
  float_eq = λ a b. a == b;
  float_le = leb;
  float_lt = ltb;
  float_as_i64 = λ f. f;
  i64_as_float = λ i. i;
  float_as_i128 = λ f. f;
  i128_from = λ i. i;
  i128_eq = λ a b. a == b;
  number_to_string = λ n. "number";
  trim = λ s. s;
  parse_i64 = λ s. some 7;
  parse_f64 = λ s. some 7;
}

small-IsNumbers : IsNumbers small
unfolding is_whole is_real
small-IsNumbers = record { from_i64_law = λ i. refl; from_f64_law = λ f n h. is_real_of f n h }
  where
    is_real_of :
        (f : ℕ) (n : ℕ ⊎ ℕ) → ◌≡◌ {A = Option (ℕ ⊎ ℕ)} (some (inr f)) (some n) → is_real n ≡ true
    is_real_of f n h = let e : inr f ≡ n = cc in rw (← e) refl

whole_to_real : convert_value small (number (inl 3)) float ≡ some (number (inr 3))
unfolding convert_value is_real whole_part chiffondb.Schema.Convert.int_to_float
whole_to_real = refl
