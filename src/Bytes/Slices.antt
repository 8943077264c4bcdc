-- ===== src/Bytes/Slices.antt =====
-- Rust's `&data[off..off + n]` and `data[off..off + n].copy_from_slice(bs)`, checked and unchecked.
use chiffondb.Prelude.{
  set, ◌<◌, ℕ, zero, suc, ◌+◌, ◌≤◌, min, ◌≡◌, ◌⊎◌, inl, inr, refl, ap, List, [], ◌∷◌, ◌++◌, length,
  take, drop, All, Result, ok, panic, leb, if◌then◌else◌, arith, le→leb, length-drop, get_or,
}

module _ {ℓ} {A : Type ℓ} where
  -- The `n` elements from `off` on, or fewer where the list ends.
  unfoldable pub slice : ℕ → ℕ → List A → List A
  slice off n xs = take n (drop off xs)

  -- The list with `bs` written at `off`; what passes the end is dropped.
  unfoldable pub patch : ℕ → List A → List A → List A
  patch off bs [] = []
  patch zero [] (x ∷ xs) = x ∷ xs
  patch zero (b ∷ bs) (x ∷ xs) = b ∷ patch zero bs xs
  patch (suc off) bs (x ∷ xs) = x ∷ patch off bs xs

  -- An index range that passes the end panics.
  abbrev pub checked_slice : ℕ → ℕ → List A → Result (List A)
  checked_slice off n xs = if leb (off + n) (length xs) then ok (slice off n xs) else panic

  abbrev pub checked_patch : ℕ → List A → List A → Result (List A)
  checked_patch off bs xs =
      if leb (off + length bs) (length xs) then ok (patch off bs xs) else panic

module _ {ℓ} {A : Type ℓ} where
  pub length-patch : (off : ℕ) (bs xs : List A) → length (patch off bs xs) ≡ length xs
  unfolding patch
  length-patch off bs [] = refl
  length-patch zero [] (x ∷ xs) = refl
  length-patch zero (b ∷ bs) (x ∷ xs) = ap suc (length-patch zero bs xs)
  length-patch (suc off) bs (x ∷ xs) = ap suc (length-patch off bs xs)

  pub length-take : (n : ℕ) (xs : List A) → length (take n xs) ≡ min n (length xs)
  length-take zero xs = omega arith
  length-take (suc n) [] = omega arith
  length-take (suc n) (x ∷ xs) = omega (arith, length-take n xs)

  pub length-slice : (off n : ℕ) (xs : List A) → off + n ≤ length xs → length (slice off n xs) ≡ n
  unfolding slice
  length-slice off n xs h = omega (arith, length-take n (drop off xs), length-drop off xs)

  pub take-length : (bs xs : List A) → take (length bs) (bs ++ xs) ≡ bs
  take-length [] xs = refl
  take-length (b ∷ bs) xs = ap (◌∷◌ b) (take-length bs xs)

  -- What was written is read back.
  pub slice-patch_self :
      (off : ℕ) (bs xs : List A)
      → off + length bs ≤ length xs
      → slice off (length bs) (patch off bs xs) ≡ bs
  unfolding slice patch
  slice-patch_self zero [] [] h = refl
  slice-patch_self zero (b ∷ bs) [] h = absurd (omega arith)
  slice-patch_self (suc off) bs [] h = absurd (omega arith)
  slice-patch_self zero [] (x ∷ xs) h = refl
  slice-patch_self zero (b ∷ bs) (x ∷ xs) h = ap (◌∷◌ b) (slice-patch_self zero bs xs (omega arith))
  slice-patch_self (suc off) bs (x ∷ xs) h = slice-patch_self off bs xs (omega arith)

  take-patch : (n off : ℕ) (bs xs : List A) → n ≤ off → take n (patch off bs xs) ≡ take n xs
  unfolding patch
  take-patch zero off bs xs h = refl
  take-patch (suc n) off bs [] h = refl
  take-patch (suc n) zero bs (x ∷ xs) h = absurd (omega arith)
  take-patch (suc n) (suc off) bs (x ∷ xs) h = ap (◌∷◌ x) (take-patch n off bs xs (omega arith))

  drop-patch_above :
      (o off : ℕ) (bs xs : List A) → off + length bs ≤ o → drop o (patch off bs xs) ≡ drop o xs
  unfolding patch
  drop-patch_above zero off bs [] h = refl
  drop-patch_above (suc o) off bs [] h = refl
  drop-patch_above zero zero [] (x ∷ xs) h = refl
  drop-patch_above zero zero (b ∷ bs) (x ∷ xs) h = absurd (omega arith)
  drop-patch_above zero (suc off) bs (x ∷ xs) h = absurd (omega arith)
  drop-patch_above (suc o) zero [] (x ∷ xs) h = refl
  drop-patch_above (suc o) zero (b ∷ bs) (x ∷ xs) h = drop-patch_above o zero bs xs (omega arith)
  drop-patch_above (suc o) (suc off) bs (x ∷ xs) h = drop-patch_above o off bs xs (omega arith)

  -- A range that ends before the written one.
  pub slice-patch_below :
      (o n off : ℕ) (bs xs : List A) → o + n ≤ off → slice o n (patch off bs xs) ≡ slice o n xs
  unfolding slice patch
  slice-patch_below zero n off bs xs h = take-patch n off bs xs (omega arith)
  slice-patch_below (suc o) n off bs [] h = refl
  slice-patch_below (suc o) n zero bs (x ∷ xs) h = absurd (omega arith)
  slice-patch_below (suc o) n (suc off) bs (x ∷ xs) h =
      slice-patch_below o n off bs xs (omega arith)

  -- A range that begins behind the written one.
  pub slice-patch_above :
      (o n off : ℕ) (bs xs : List A)
      → off + length bs ≤ o
      → slice o n (patch off bs xs) ≡ slice o n xs
  unfolding slice
  slice-patch_above o n off bs xs h = ap (take n) (drop-patch_above o off bs xs h)

  pub slice-patch_apart :
      (o n off : ℕ) (bs xs : List A)
      → (o + n ≤ off) ⊎ (off + length bs ≤ o)
      → slice o n (patch off bs xs) ≡ slice o n xs
  slice-patch_apart o n off bs xs (inl h) = slice-patch_below o n off bs xs h
  slice-patch_apart o n off bs xs (inr h) = slice-patch_above o n off bs xs h

  pub All-take {κ} : (P : A → Type κ) (n : ℕ) (xs : List A) → All P xs → All P (take n xs)
  All-take P zero xs h = tt
  All-take P (suc n) [] h = tt
  All-take P (suc n) (x ∷ xs) h = (h.0, All-take P n xs h.1)

  pub All-drop {κ} : (P : A → Type κ) (n : ℕ) (xs : List A) → All P xs → All P (drop n xs)
  All-drop P zero xs h = h
  All-drop P (suc n) [] h = tt
  All-drop P (suc n) (x ∷ xs) h = All-drop P n xs h.1

  pub All-slice {κ} : (P : A → Type κ) (off n : ℕ) (xs : List A) → All P xs → All P (slice off n xs)
  unfolding slice
  All-slice P off n xs h = All-take P n (drop off xs) (All-drop P off xs h)

  pub All-patch {κ} :
      (P : A → Type κ) (off : ℕ) (bs xs : List A) → All P bs → All P xs → All P (patch off bs xs)
  unfolding patch
  All-patch P off bs [] hb h = tt
  All-patch P zero [] (x ∷ xs) hb h = h
  All-patch P zero (b ∷ bs) (x ∷ xs) hb h = (hb.0, All-patch P zero bs xs hb.1 h.1)
  All-patch P (suc off) bs (x ∷ xs) hb h = (h.0, All-patch P off bs xs hb h.1)

  -- One element, read by its index.
  pub get_or-slice :
      (off : ℕ) (xs : List A) (d x : A) → slice off 1 xs ≡ x ∷ [] → get_or xs off d ≡ x
  unfolding slice
  get_or-slice zero [] d x e = cc
  get_or-slice zero (y ∷ xs) d x e = cc
  get_or-slice (suc off) [] d x e = cc
  get_or-slice (suc off) (y ∷ xs) d x e = get_or-slice off xs d x e

  pub slice-set_below :
      (off n i : ℕ) (xs : List A) (v : A) → i < off → slice off n (set xs i v) ≡ slice off n xs
  unfolding slice
  slice-set_below off n i [] v h = refl
  slice-set_below zero n i (x ∷ xs) v h = elim h [ ]
  slice-set_below (suc off) n zero (x ∷ xs) v h = refl
  slice-set_below (suc off) n (suc i) (x ∷ xs) v h = slice-set_below off n i xs v (omega arith)

  pub get_or-patch_below :
      (off i : ℕ) (bs xs : List A) (d : A) → i < off → get_or (patch off bs xs) i d ≡ get_or xs i d
  unfolding patch
  get_or-patch_below off i bs [] d h = refl
  get_or-patch_below zero i bs (x ∷ xs) d h = elim h [ ]
  get_or-patch_below (suc off) zero bs (x ∷ xs) d h = refl
  get_or-patch_below (suc off) (suc i) bs (x ∷ xs) d h =
      get_or-patch_below off i bs xs d (omega arith)

  pub checked_slice_ok :
      (off n : ℕ) (xs : List A) → off + n ≤ length xs → checked_slice off n xs ≡ ok (slice off n xs)
  checked_slice_ok off n xs h = ground (arith, le→leb (off + n) (length xs))

  pub checked_patch_ok :
      (off : ℕ) (bs xs : List A)
      → off + length bs ≤ length xs
      → checked_patch off bs xs ≡ ok (patch off bs xs)
  checked_patch_ok off bs xs h = ground (arith, le→leb (off + length bs) (length xs))
