-- ===== src/Bytes/Words.antt =====
-- Little-endian words: `to_le_bytes` and `from_le_bytes` of u16, u32 and u64.
use chiffondb.Prelude.{
  ℕ, ◌+◌, ◌*◌, ◌/◌, ◌%◌, ◌^◌, ◌<◌, ◌≡◌, refl, List, [], ◌∷◌, length, All, arith,
}

abbrev pub IsByte : ℕ → Type 0
IsByte b = b < 256

abbrev pub IsBytes : List ℕ → Type 0
IsBytes bs = All IsByte bs

abbrev pub IsU16 : ℕ → Type 0
IsU16 v = v < 65536

abbrev pub IsU32 : ℕ → Type 0
IsU32 v = v < 4294967296

-- `v.to_le_bytes()` of a word of 2 or 4 bytes; each byte is cut to 8 bits.
unfoldable pub le_bytes_u16 : ℕ → List ℕ
le_bytes_u16 v = v % 256 ∷ (v / 256) % 256 ∷ []

unfoldable pub le_bytes_u32 : ℕ → List ℕ
le_bytes_u32 v = v % 256 ∷ (v / 256) % 256 ∷ (v / 65536) % 256 ∷ (v / 16777216) % 256 ∷ []

-- `from_le_bytes`: the first byte counts least.
unfoldable pub from_le_bytes : List ℕ → ℕ
from_le_bytes [] = 0
from_le_bytes (b ∷ bs) = b + 256 * from_le_bytes bs

pub length-le_bytes_u16 : (v : ℕ) → length (le_bytes_u16 v) ≡ 2
unfolding le_bytes_u16
length-le_bytes_u16 v = refl

pub length-le_bytes_u32 : (v : ℕ) → length (le_bytes_u32 v) ≡ 4
unfolding le_bytes_u32
length-le_bytes_u32 v = refl

pub le_bytes_u16-IsBytes : (v : ℕ) → IsBytes (le_bytes_u16 v)
unfolding le_bytes_u16
le_bytes_u16-IsBytes v = omega arith

pub le_bytes_u32-IsBytes : (v : ℕ) → IsBytes (le_bytes_u32 v)
unfolding le_bytes_u32
le_bytes_u32-IsBytes v = omega arith

pub from_le_bytes-le_bytes_u16 : (v : ℕ) → IsU16 v → from_le_bytes (le_bytes_u16 v) ≡ v
unfolding from_le_bytes le_bytes_u16
from_le_bytes-le_bytes_u16 v h = omega arith

pub from_le_bytes-le_bytes_u32 : (v : ℕ) → IsU32 v → from_le_bytes (le_bytes_u32 v) ≡ v
unfolding from_le_bytes le_bytes_u32
from_le_bytes-le_bytes_u32 v h = omega arith

pub from_le_bytes-lt : (bs : List ℕ) → IsBytes bs → from_le_bytes bs < 256 ^ length bs
unfolding from_le_bytes
from_le_bytes-lt [] h = omega arith
from_le_bytes-lt (b ∷ bs) h = grind (arith, from_le_bytes-lt bs)
