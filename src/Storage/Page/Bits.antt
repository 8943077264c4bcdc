-- ===== src/Storage/Page/Bits.antt =====
-- `set_bit` on one byte, by evaluation over all bytes and bit places.
use chiffondb.Prelude.{
  ℕ, ◌/◌, ◌%◌, ◌^◌, ◌<◌, ◌≡◌, refl, Bool, true, false, ◌&&◌, arith, ltb, ◌==◌, if◌then◌else◌,
  holds_below, holds_below_sound,
}
use chiffondb.Storage.Page.{set_bit}

abbrev pub bit_at : ℕ → ℕ → ℕ
bit_at b i = (b / 2 ^ i) % 2

abbrev bit_value : Bool → ℕ
bit_value used = if used then 1 else 0

right_bit : Bool → ℕ → ℕ → ℕ → Bool
right_bit used b i j =
    ltb (set_bit b i used) 256
    && bit_at (set_bit b i used) j == (if i == j then bit_value used else bit_at b j)

right_bits : Bool → Bool
right_bits used = holds_below 256 (λ b. holds_below 8 (λ i. holds_below 8 (right_bit used b i)))

right_bits-eq-true : (used : Bool) → right_bits used ≡ true
unfolding right_bits right_bit holds_below set_bit
right_bits-eq-true true = refl
right_bits-eq-true false = refl

right_bit-eq-true :
    (used : Bool) (b i j : ℕ) → b < 256 → i < 8 → j < 8 → right_bit used b i j ≡ true
unfolding right_bits
right_bit-eq-true used b i j hb hi hj = holds_below_sound (right_bit used b i) 8 j hj (
    holds_below_sound (λ i. holds_below 8 (right_bit used b i)) 8 i hi
      (holds_below_sound (λ b. holds_below 8 (λ i. holds_below 8 (right_bit used b i))) 256 b hb
        (right_bits-eq-true used)))

-- Writing a bit keeps a byte a byte.
pub set_bit-lt : (used : Bool) (b i : ℕ) → b < 256 → i < 8 → set_bit b i used < 256
unfolding right_bit
set_bit-lt used b i hb hi = ground (arith, right_bit-eq-true used b i 0)

-- The written bit has its new value.
pub bit_at-set_bit_self :
    (used : Bool) (b i : ℕ) → b < 256 → i < 8 → bit_at (set_bit b i used) i ≡ bit_value used
unfolding right_bit
bit_at-set_bit_self used b i hb hi = ground (arith, right_bit-eq-true used b i i)

-- The other bits keep theirs.
pub bit_at-set_bit_ne :
    (used : Bool) (b i j : ℕ)
    → b < 256
    → i < 8
    → j < 8
    → (i ≡ j → ⊥)
    → bit_at (set_bit b i used) j ≡ bit_at b j
unfolding right_bit
bit_at-set_bit_ne used b i j hb hi hj ne = ground (arith, right_bit-eq-true used b i j)
