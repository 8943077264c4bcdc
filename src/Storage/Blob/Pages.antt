-- ===== src/Storage/Blob/Pages.antt =====
-- One page of a chain, and the pages that `write_chunks` leaves.
use chiffondb.Prelude.{
  false, ℕ, zero, suc, ◌+◌, ◌-◌, ◌*◌, ◌≤◌, ◌<◌, ◌≡◌, refl, ap, ◌∙◌, List, [], ◌∷◌, length,
  get_elem?, some, All, arith, min, ok, ltb,
}
use chiffondb.Bytes.Slices.{slice, checked_slice_ok, length-slice}
use chiffondb.Bytes.Words.{
  IsU32, le_bytes_u32, from_le_bytes, length-le_bytes_u32, from_le_bytes-le_bytes_u32,
}
use chiffondb.Bytes.Layout.{Field, write_fields, slice-write_fields, length-write_fields}
use chiffondb.Storage.Page.{page_size}
use chiffondb.Storage.Blob.{
  page_at, chain_page, chain_data_per_page, chain_header_size, next_link, write_chunks, read_chunk,
}

abbrev pub IsPageBytes : List ℕ → Type 0
IsPageBytes page = length page ≡ page_size

page_at_ok :
    (pages : List (List ℕ)) (i : ℕ) (page : List ℕ)
    → get_elem? pages i ≡ some page
    → page_at pages i ≡ ok page
unfolding page_at
page_at_ok pages i page e = ground arith

module _ (next : ℕ) (chunk page : List ℕ) (s : length page ≡ page_size)
    (fits : length chunk ≤ chain_data_per_page) where
  abbrev fields : List Field
  fields =
      (0, le_bytes_u32 next) ∷ (4, le_bytes_u32 (length chunk)) ∷ (chain_header_size, chunk) ∷ []

  pub length-chain_page : length (chain_page next chunk page) ≡ page_size
  unfolding chain_page write_fields
  length-chain_page = length-write_fields fields page ∙ s

  next-chain_page : IsU32 next → from_le_bytes (slice 0 4 (chain_page next chunk page)) ≡ next
  unfolding chain_page write_fields
  next-chain_page u =
      ap from_le_bytes (
        slice-write_fields 0 fields page refl (length-le_bytes_u32 _) (omega arith)
          (omega (arith, length-le_bytes_u32)))
      ∙ from_le_bytes-le_bytes_u32 _ u

  length_word-chain_page : from_le_bytes (slice 4 4 (chain_page next chunk page)) ≡ length chunk
  unfolding chain_page write_fields
  length_word-chain_page =
      ap from_le_bytes (
        slice-write_fields 1 fields page refl (length-le_bytes_u32 _) (omega arith)
          (omega (arith, length-le_bytes_u32)))
      ∙ from_le_bytes-le_bytes_u32 _ (omega arith)

  chunk-chain_page : slice chain_header_size (length chunk) (chain_page next chunk page) ≡ chunk
  unfolding chain_page write_fields
  chunk-chain_page = slice-write_fields 2 fields page refl refl (omega arith) tt

  -- A page of the chain reads back as its chunk and its next link.
  pub read_chunk-chain_page :
      (pages : List (List ℕ)) (i : ℕ)
      → IsU32 next
      → get_elem? pages i ≡ some (chain_page next chunk page)
      → read_chunk pages i ≡ ok (chunk, next)
  unfolding read_chunk
  read_chunk-chain_page pages i u e =
      let room : ltb chain_data_per_page (length chunk) ≡ false = ground arith in
      let inside =
        checked_slice_ok chain_header_size (length chunk) (chain_page next chunk page)
          (omega (arith, length-chain_page)) in
      rw (page_at_ok pages i _ e)
        (rw (next-chain_page u, length_word-chain_page, room) (rw (inside, chunk-chain_page)))

-- The start of chunk `i`, as the loop reaches it.
abbrev pub chunk_start : ℕ → List ℕ → ℕ
chunk_start i content = min (i * chain_data_per_page) (length content)

abbrev pub chunk_of : ℕ → List ℕ → List ℕ
chunk_of i content =
    slice (chunk_start i content) (chunk_start (i + 1) content - chunk_start i content) content

pub length-chunk_of : (i : ℕ) (content : List ℕ) → length (chunk_of i content) ≤ chain_data_per_page
length-chunk_of i content = omega (
  arith,
  length-slice (chunk_start i content) (chunk_start (i + 1) content - chunk_start i content) content
      (omega arith),
)

next_start :
    (i : ℕ) (content : List ℕ)
    → min (chunk_start i content + chain_data_per_page) (length content)
      ≡ chunk_start (i + 1) content
next_start i content = omega arith

-- Page `i + j` of the written list holds chunk `i + j`.
pub get_elem?-write_chunks :
    (left needed i j : ℕ) (content : List ℕ) (pages : List (List ℕ))
    → All IsPageBytes pages
    → left ≤ length pages
    → j < left
    → (page : List ℕ) × (length page ≡ page_size)
      × (get_elem? (write_chunks left needed i (chunk_start i content) content pages) j
          ≡ some (chain_page (next_link needed (i + j)) (chunk_of (i + j) content) page))
unfolding write_chunks
get_elem?-write_chunks zero needed i j content pages s h lt = absurd (omega arith)
get_elem?-write_chunks (suc left) needed i j content [] s h lt = absurd (omega arith)
get_elem?-write_chunks (suc left) needed i zero content (page ∷ pages) s h lt =
    let same : i + 0 ≡ i = omega arith in (page, s.0, rw (next_start i content, same))
get_elem?-write_chunks (suc left) needed i (suc j) content (page ∷ pages) s h lt =
    let (p, sp, e) =
      get_elem?-write_chunks left needed (i + 1) j content pages s.1 (omega arith) (omega arith) in
    let same : i + suc j ≡ i + 1 + j = omega arith in (p, sp, rw (next_start i content, same) e)

pub length-write_chunks :
    (left needed i offset : ℕ) (content : List ℕ) (pages : List (List ℕ))
    → length (write_chunks left needed i offset content pages) ≡ length pages
unfolding write_chunks
length-write_chunks zero needed i offset content pages = refl
length-write_chunks (suc left) needed i offset content [] = refl
length-write_chunks (suc left) needed i offset content (page ∷ pages) =
    ap suc (length-write_chunks left needed (i + 1) _ content pages)
