-- ===== src/Storage/Blob/RoundTrip.antt =====
-- A value written as a blob chain is read back.
use chiffondb.Prelude.{
  ℕ, zero, suc, ◌+◌, ◌-◌, ◌*◌, ◌≤◌, ◌<◌, ◌≡◌, ◌≢◌, refl, ap, ◌∙◌, sym, List, [], ◌∷◌, ◌++◌, length,
  All, arith, ok, ltb, drop, false,
}
use chiffondb.Bytes.Slices.{slice}
use chiffondb.Storage.Blob.{
  chain_data_per_page, no_next_page, next_link, write_chunks, write_blob_chain, read_chunk,
  read_chunks, read_blob_chain, pages_needed,
}
use chiffondb.Storage.Blob.Pages.{
  IsPageBytes, read_chunk-chain_page, chunk_start, chunk_of, length-chunk_of,
  get_elem?-write_chunks, length-write_chunks,
}
use mathlib.Core.List.{append_assoc, append-nil}

drop-nil : (n : ℕ) → drop {A = ℕ} n [] ≡ []
drop-nil zero = refl
drop-nil (suc n) = refl

slice-append-drop : (off n : ℕ) (xs : List ℕ) → slice off n xs ++ drop (off + n) xs ≡ drop off xs
unfolding slice
slice-append-drop zero zero xs = refl
slice-append-drop zero (suc n) [] = drop-nil (0 + suc n)
slice-append-drop zero (suc n) (x ∷ xs) =
    let step : 0 + suc n ≡ suc (0 + n) = omega arith in
    rw step (ap (◌∷◌ x) (slice-append-drop zero n xs))
slice-append-drop (suc off) zero [] = drop-nil (suc off + 0)
slice-append-drop (suc off) (suc n) [] = drop-nil (suc off + suc n)
slice-append-drop (suc off) n (x ∷ xs) =
    let step : suc off + n ≡ suc (off + n) = omega arith in rw step (slice-append-drop off n xs)

drop-length : (xs : List ℕ) → drop (length xs) xs ≡ []
drop-length [] = refl
drop-length (x ∷ xs) = drop-length xs

chunk-append :
    (i : ℕ) (content : List ℕ)
    → chunk_of i content ++ drop (chunk_start (i + 1) content) content
      ≡ drop (chunk_start i content) content
chunk-append i content =
    let reach : chunk_start (i + 1) content
        ≡ chunk_start i content + (chunk_start (i + 1) content - chunk_start i content) =
      omega arith in
    ap (λ (n : ℕ). chunk_of i content ++ drop n content) reach
    ∙ slice-append-drop (chunk_start i content)
        (chunk_start (i + 1) content - chunk_start i content) content

-- The chunks cover the content: `needed` of them reach its end, and no fewer.
needed_covers : (len : ℕ) → len ≤ pages_needed len * chain_data_per_page
unfolding pages_needed
needed_covers len = omega arith

read_chunks_last :
    (left i : ℕ) (acc : List ℕ) (pages : List (List ℕ)) (chunk : List ℕ)
    → read_chunk pages i ≡ ok (chunk, no_next_page)
    → read_chunks left i acc pages ≡ ok (acc ++ chunk)
unfolding read_chunks
read_chunks_last zero i acc pages chunk e = rw e
read_chunks_last (suc left) i acc pages chunk e = rw e

read_chunks_more :
    (left i next : ℕ) (acc : List ℕ) (pages : List (List ℕ)) (chunk : List ℕ)
    → read_chunk pages i ≡ ok (chunk, next)
    → next ≢ no_next_page
    → read_chunks (suc left) i acc pages ≡ read_chunks left next (acc ++ chunk) pages
unfolding read_chunks
read_chunks_more left i next acc pages chunk e ne = ground arith

needed_pos : (len : ℕ) → 1 ≤ pages_needed len
unfolding pages_needed
needed_pos len = omega arith

module _ (content : List ℕ) (pages : List (List ℕ)) (s : All IsPageBytes pages)
    (enough : pages_needed (length content) ≤ length pages)
    (few : length pages < no_next_page) where
  abbrev needed : ℕ
  needed = pages_needed (length content)

  abbrev chain : List (List ℕ)
  chain = write_chunks needed needed 0 0 content pages

  read_chunk-chain :
      (i : ℕ) → i < needed → read_chunk chain i ≡ ok (chunk_of i content, next_link needed i)
  read_chunk-chain i lt =
      let (page, sp, e) = get_elem?-write_chunks needed needed 0 i content pages s enough lt in
      let first : chunk_start 0 content ≡ 0 = omega arith in
      let same : 0 + i ≡ i = omega arith in
      read_chunk-chain_page (next_link needed i) (chunk_of i content) page sp
        (length-chunk_of i content) chain i (ground arith) (rw (first, same) at e)

  last_link : (i : ℕ) → 1 + i ≡ needed → next_link needed i ≡ no_next_page
  last_link i e = ground arith

  inner_link : (i : ℕ) → i + 1 < needed → next_link needed i ≡ i + 1
  inner_link i lt = ground arith

  last_chunk : (i : ℕ) → 1 + i ≡ needed → chunk_of i content ≡ drop (chunk_start i content) content
  last_chunk i e =
      let reach : chunk_start (i + 1) content ≡ length content =
        omega (arith, needed_covers (length content)) in
      sym (append-nil (chunk_of i content))
      ∙ ap (◌++◌ (chunk_of i content)) (sym (drop-length content))
      ∙ ap (λ (n : ℕ). chunk_of i content ++ drop n content) (sym reach)
      ∙ chunk-append i content

  read_chunks-chain :
      (rest i : ℕ) (acc : List ℕ)
      → suc rest + i ≡ needed
      → (left : ℕ) → rest ≤ left
      → read_chunks left i acc chain ≡ ok (acc ++ drop (chunk_start i content) content)
  read_chunks-chain zero i acc e left h =
      read_chunks_last left i acc chain (chunk_of i content)
        (rw (last_link i e) at (read_chunk-chain i (omega arith)))
      ∙ ap (λ (xs : List ℕ). ok (acc ++ xs)) (last_chunk i e)
  read_chunks-chain (suc rest) i acc e zero h = absurd (omega arith)
  read_chunks-chain (suc rest) i acc e (suc left) h =
      read_chunks_more left i (i + 1) acc chain (chunk_of i content)
        (rw (inner_link i (omega arith)) at (read_chunk-chain i (omega arith))) (omega arith)
      ∙ read_chunks-chain rest (i + 1) (acc ++ chunk_of i content) (omega arith) left (omega arith)
      ∙ ap ok (
          append_assoc acc (chunk_of i content) (drop (chunk_start (i + 1) content) content)
          ∙ ap (◌++◌ acc) (chunk-append i content))

-- Given enough pages, the chain holds the value: it is read back whole, whatever the pages held.
pub read_blob_chain-write_blob_chain :
    (content : List ℕ) (pages : List (List ℕ))
    → All IsPageBytes pages
    → pages_needed (length content) ≤ length pages
    → length pages < no_next_page
    → (chain : List (List ℕ)) × (write_blob_chain pages content ≡ ok chain)
      × (length chain ≡ length pages)
      × (read_blob_chain chain ≡ ok content)
unfolding write_blob_chain read_blob_chain
read_blob_chain-write_blob_chain content pages s enough few =
    let room : ltb (length pages) (pages_needed (length content)) ≡ false = ground arith in
    let first : chunk_start 0 content ≡ 0 = omega arith in
    (
      chain content pages s enough few,
      rw room,
      length-write_chunks (pages_needed (length content)) _ 0 0 content pages,
      read_chunks-chain content pages s enough few (pages_needed (length content) - 1) 0 []
            (omega (arith, needed_pos (length content))) _
            (omega (
              arith,
              length-write_chunks (pages_needed (length content)) (pages_needed (length content)) 0
                  0 content pages,
            ))
          ∙ ap (λ (n : ℕ). ok (drop n content)) first,
    )
