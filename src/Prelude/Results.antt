-- ===== src/Prelude/Results.antt =====
-- chiffondb-core/src/error.rs, and what a Rust call can end in.
use Prim.Native.Nat.{ℕ}
use Prim.Native.String.{String}
use mathlib.Core.Path.{◌≡◌, refl}
use mathlib.Core.Logic.{◌↔◌, ◌⊎◌, inl, inr}
use native.Mathlib.Omega.{arith}

-- `GraphError`. `io` carries no value: the operating system's errors are not modelled further.
pub data GraphError : Type 0 where
  node_not_found : String → GraphError
  edge_not_found : String → GraphError
  schema_error : String → GraphError
  storage_corrupted : ℕ → GraphError
  property_slot_freed : GraphError
  unsupported_version : ℕ → ℕ → GraphError
  invalid_command : String → GraphError
  type_mismatch : String → String → GraphError
  validation_error : String → GraphError
  unique_violation : String → String → GraphError
  io : GraphError

-- `Result<A, GraphError>`, and `panic` where the call aborts (a slice or an index out of range).
pub data Result {ℓ} (A : Type ℓ) : Type ℓ where
  ok : A → Result A
  err : GraphError → Result A
  panic : Result A

infixl 5 ◌>>=◌
abbrev pub ◌>>=◌ {ℓ κ} : {A : Type ℓ} {B : Type κ} (m : Result A) (then : A → Result B) → Result B
panic >>= then = panic
err reason >>= then = err reason
ok value >>= then = then value

-- Two checks in a row pass just where both pass.
pub sequence_iff :
    (m k : Result (Unit {0})) → ((m >>= λ _. k) ≡ ok tt) ↔ ((m ≡ ok tt) × (k ≡ ok tt))
sequence_iff (ok tt) k = ground arith
sequence_iff (err e) k = ground arith
sequence_iff panic k = ground arith

pub Result-cases {ℓ} :
    {A : Type ℓ} (m : Result A)
    → ((a : A) × (m ≡ ok a)) ⊎ (((e : GraphError) × (m ≡ err e)) ⊎ (m ≡ panic))
Result-cases (ok a) = inl (a, refl)
Result-cases (err e) = inr (inl (e, refl))
Result-cases panic = inr (inr refl)

pub >>=-ok {ℓ κ} :
    {A : Type ℓ} {B : Type κ} (m : Result A) (then : A → Result B) (a : A)
    → m ≡ ok a
    → (m >>= then) ≡ then a
>>=-ok m then a e = rw e refl
