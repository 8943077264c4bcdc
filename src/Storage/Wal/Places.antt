-- ===== src/Storage/Wal/Places.antt =====
-- `write_at` on a file: what can be read at each place afterwards.
use chiffondb.Prelude.{
  ℕ, zero, suc, ◌+◌, ◌-◌, ◌≤◌, ◌≡◌, ◌⊎◌, inl, inr, refl, ap, ◌∙◌, sym, List, [], ◌∷◌, ◌++◌, length,
  take, drop, arith, replicate, length-append, length-drop, length-replicate,
}
use chiffondb.Bytes.Slices.{slice, take-length, length-take}
use chiffondb.Storage.Wal.{write_at}
use chiffondb.Storage.Wal.Index.{slice-length-append}

pub slice-append_left :
    (q n : ℕ) (xs ys : List ℕ) → q + n ≤ length xs → slice q n (xs ++ ys) ≡ slice q n xs
unfolding slice
slice-append_left zero zero xs ys h = refl
slice-append_left zero (suc n) [] ys h = absurd (omega arith)
slice-append_left zero (suc n) (x ∷ xs) ys h =
    ap (◌∷◌ x) (slice-append_left zero n xs ys (omega arith))
slice-append_left (suc q) n [] ys h = absurd (omega arith)
slice-append_left (suc q) n (x ∷ xs) ys h = slice-append_left q n xs ys (omega arith)

slice-append_right : (q n : ℕ) (xs ys : List ℕ) → slice (length xs + q) n (xs ++ ys) ≡ slice q n ys
unfolding slice
slice-append_right q n [] ys = ap (λ (k : ℕ). slice k n ys) (omega arith)
slice-append_right q n (x ∷ xs) ys =
    let step : suc (length xs) + q ≡ suc (length xs + q) = omega arith in
    rw step (slice-append_right q n xs ys)

slice-take : (q n o : ℕ) (xs : List ℕ) → q + n ≤ o → slice q n (take o xs) ≡ slice q n xs
unfolding slice
slice-take q n zero xs h =
    let q0 : q ≡ 0 = omega arith in let n0 : n ≡ 0 = omega arith in rw (q0, n0)
slice-take zero zero (suc o) [] h = refl
slice-take zero (suc n) (suc o) [] h = refl
slice-take (suc q) n (suc o) [] h = refl
slice-take zero zero (suc o) (x ∷ xs) h = refl
slice-take zero (suc n) (suc o) (x ∷ xs) h = ap (◌∷◌ x) (slice-take zero n o xs (omega arith))
slice-take (suc q) n (suc o) (x ∷ xs) h = slice-take q n o xs (omega arith)

slice-nil : (q n : ℕ) → slice {A = ℕ} q n [] ≡ take n []
unfolding slice
slice-nil zero n = refl
slice-nil (suc q) n = refl

slice-drop : (q n m : ℕ) (xs : List ℕ) → slice q n (drop m xs) ≡ slice (m + q) n xs
unfolding slice
slice-drop q n zero xs = ap (λ (k : ℕ). slice k n xs) (omega arith)
slice-drop zero n (suc m) [] = sym (slice-nil (suc m + 0) n)
slice-drop (suc q) n (suc m) [] = sym (slice-nil (suc m + suc q) n)
slice-drop q n (suc m) (x ∷ xs) =
    let step : suc m + q ≡ suc (m + q) = omega arith in rw step (slice-drop q n m xs)

module _ (o : ℕ) (bs file : List ℕ) where
  front : List ℕ
  front = take o (file ++ replicate (o - length file) 0)

  length-front : length front ≡ o
  unfolding front
  length-front = omega (
    arith,
    length-take o (file ++ replicate (o - length file) 0),
    length-append file (replicate (o - length file) 0),
    length-replicate (o - length file) zero,
  )

  pub length-write_at-le :
      (length file ≤ length (write_at o bs file)) × (o + length bs ≤ length (write_at o bs file))
  unfolding write_at front
  length-write_at-le = omega (
    arith,
    length-front,
    length-append front (bs ++ drop (o + length bs) file),
    length-append bs (drop (o + length bs) file),
    length-drop (o + length bs) file,
  )

  -- The bytes written are read back.
  pub slice-write_at_self : slice o (length bs) (write_at o bs file) ≡ bs
  unfolding write_at front
  slice-write_at_self =
      ap (λ (k : ℕ). slice k (length bs) (front ++ (bs ++ drop (o + length bs) file)))
        (sym length-front)
      ∙ slice-length-append front (bs ++ drop (o + length bs) file) (length bs)
      ∙ take-length bs (drop (o + length bs) file)

  -- A range of the old file that the write does not touch keeps its bytes.
  pub slice-write_at_apart :
      (q n : ℕ)
      → q + n ≤ length file
      → (q + n ≤ o) ⊎ (o + length bs ≤ q)
      → slice q n (write_at o bs file) ≡ slice q n file
  unfolding write_at front
  slice-write_at_apart q n h (inl below) =
      slice-append_left q n front (bs ++ drop (o + length bs) file) (omega (arith, length-front))
      ∙ slice-take q n o (file ++ replicate (o - length file) 0) below
      ∙ slice-append_left q n file (replicate (o - length file) 0) h
  slice-write_at_apart q n h (inr above) =
      let rest = drop (o + length bs) file in
      ap (λ (k : ℕ). slice k n (front ++ (bs ++ rest))) (omega (arith, length-front))
      ∙ slice-append_right (length bs + (q - (o + length bs))) n front (bs ++ rest)
      ∙ slice-append_right (q - (o + length bs)) n bs rest
      ∙ slice-drop (q - (o + length bs)) n (o + length bs) file
      ∙ ap (λ (k : ℕ). slice k n file) (omega arith)
