-- ===== src/Bytes/Layout.antt =====
-- A record's bytes: a zeroed buffer, and a list of fields written into it one after the other
-- (`buf[off..off + n].copy_from_slice(..)` in a row).
use chiffondb.Prelude.{
  ℕ, zero, suc, ◌+◌, ◌≤◌, ◌≡◌, ◌⊎◌, refl, List, [], ◌∷◌, length, All, arith, ◌∙◌, get_elem?, drop,
  some, replicate, length-replicate,
}
use chiffondb.Bytes.Slices.{
  slice, patch, length-patch, slice-patch_self, slice-patch_apart, All-patch,
}
use chiffondb.Bytes.Words.{IsBytes, IsByte}

abbrev pub Field : Type 0
Field = ℕ × List ℕ

-- The fields written in order.
unfoldable pub write_fields : List Field → List ℕ → List ℕ
write_fields [] buf = buf
write_fields ((off, bs) ∷ fs) buf = write_fields fs (patch off bs buf)

-- The field lies outside the `n` bytes from `off` on.
abbrev pub Apart : ℕ → ℕ → Field → Type 0
Apart off n f = (off + n ≤ f.0) ⊎ (f.0 + length (f.1) ≤ off)

pub length-write_fields :
    (fs : List Field) (buf : List ℕ) → length (write_fields fs buf) ≡ length buf
unfolding write_fields
length-write_fields [] buf = refl
length-write_fields ((off, bs) ∷ fs) buf =
    length-write_fields fs (patch off bs buf) ∙ length-patch off bs buf

pub slice-write_fields-Apart :
    (off n : ℕ) (fs : List Field) (buf : List ℕ)
    → All (Apart off n) fs
    → slice off n (write_fields fs buf) ≡ slice off n buf
unfolding write_fields
slice-write_fields-Apart off n [] buf h = refl
slice-write_fields-Apart off n ((o, bs) ∷ fs) buf h =
    slice-write_fields-Apart off n fs (patch o bs buf) h.1 ∙ slice-patch_apart off n o bs buf h.0

-- The field at place `i` of the list is read back where the later ones leave it alone.
pub slice-write_fields :
    (i : ℕ) (fs : List Field) (buf : List ℕ) {off n : ℕ} {bs : List ℕ}
    → get_elem? fs i ≡ some (off, bs)
    → length bs ≡ n
    → off + n ≤ length buf
    → All (Apart off n) (drop (suc i) fs)
    → slice off n (write_fields fs buf) ≡ bs
unfolding write_fields
slice-write_fields i [] buf e l h apart = cc
slice-write_fields zero ((o, v) ∷ fs) buf {off} {n} {bs} e l h apart =
    ground
      (arith, slice-write_fields-Apart off n fs (patch o v buf) apart, slice-patch_self o v buf)
slice-write_fields (suc i) ((o, v) ∷ fs) buf e l h apart =
    slice-write_fields i fs (patch o v buf) e l (omega (arith, length-patch o v buf)) apart

pub length-zeros : (n : ℕ) → length (replicate n zero) ≡ n
length-zeros n = length-replicate n 0

pub write_fields-IsBytes :
    (fs : List Field) (buf : List ℕ)
    → All (λ (f : Field). IsBytes (f.1)) fs
    → IsBytes buf
    → IsBytes (write_fields fs buf)
unfolding write_fields
write_fields-IsBytes [] buf h hb = hb
write_fields-IsBytes ((off, bs) ∷ fs) buf h hb =
    write_fields-IsBytes fs (patch off bs buf) h.1 (All-patch IsByte off bs buf h.0 hb)
