-- ===== src/Storage/Blob.antt =====
-- chiffondb-core/src/storage/property.rs, the blob chains: a value larger than a page is cut into
-- chunks, each in a page of its own behind an 8-byte header (next page, chunk length).
pub mod Pages
pub mod RoundTrip
pub mod Hostile
use chiffondb.Prelude.{
  ℕ, zero, suc, ◌+◌, ◌-◌, ◌*◌, ◌/◌, ◌%◌, min, max, true, false, List, [], ◌∷◌, ◌++◌, length,
  get_elem?, Option, none, some, Result, ok, err, storage_corrupted, ltb, ◌==◌, if◌then◌else◌,
  ◌>>=◌,
}
use chiffondb.Bytes.Slices.{slice, patch, checked_slice}
use chiffondb.Bytes.Words.{le_bytes_u32, from_le_bytes}
use chiffondb.Storage.Page.{page_size}

abbrev pub chain_header_size : ℕ
chain_header_size = 8

abbrev pub no_next_page : ℕ
no_next_page = 4294967295

abbrev pub chain_data_per_page : ℕ
chain_data_per_page = page_size - chain_header_size

-- `data_len.div_ceil(CHAIN_DATA_PER_PAGE).max(1)`
unfoldable pub pages_needed : ℕ → ℕ
pages_needed data_len = max ((data_len + (chain_data_per_page - 1)) / chain_data_per_page) 1

-- The header and the chunk of one page. A chunk has at most 4088 bytes, so it fits.
unfoldable pub chain_page : ℕ → List ℕ → List ℕ → List ℕ
chain_page next chunk page =
    patch chain_header_size chunk
      (patch 4 (le_bytes_u32 (length chunk)) (patch 0 (le_bytes_u32 next) page))

-- `if i + 1 < needed { (i + 1) as u32 } else { NO_NEXT_PAGE }`
abbrev pub next_link : ℕ → ℕ → ℕ
next_link needed i = if ltb (i + 1) needed then (i + 1) % 4294967296 else no_next_page

-- The loop over `pages.iter_mut().enumerate().take(needed)`, with `left` pages of it to go.
unfoldable pub write_chunks : ℕ → ℕ → ℕ → ℕ → List ℕ → List (List ℕ) → List (List ℕ)
write_chunks zero needed i offset content pages = pages
write_chunks (suc left) needed i offset content [] = []
write_chunks (suc left) needed i offset content (page ∷ pages) =
    let chunk_end = min (offset + chain_data_per_page) (length content) in
    chain_page (next_link needed i) (slice offset (chunk_end - offset) content) page
    ∷ write_chunks left needed (i + 1) chunk_end content pages

unfoldable pub write_blob_chain : List (List ℕ) → List ℕ → Result (List (List ℕ))
write_blob_chain pages content =
    let needed = pages_needed (length content) in
    if ltb (length pages) needed
    then err (storage_corrupted 0)
    else ok (write_chunks needed needed 0 0 content pages)

-- `pages.get(page_idx).ok_or(..)`
unfoldable pub page_at : List (List ℕ) → ℕ → Result (List ℕ)
page_at pages idx = elim (get_elem? pages idx) [
  | none ↦ err (storage_corrupted (idx % 4294967296))
  | some page ↦ ok page
]

-- One round of the loop of `read_blob_chain`: the chunk of a page and its next link.
unfoldable pub read_chunk : List (List ℕ) → ℕ → Result (List ℕ × ℕ)
read_chunk pages page_idx = do
  page ← page_at pages page_idx
  let next = from_le_bytes (slice 0 4 page)
  let chunk_len = from_le_bytes (slice 4 4 page)
  if ltb chain_data_per_page chunk_len
      then err (storage_corrupted (page_idx % 4294967296))
      else do chunk ← checked_slice chain_header_size chunk_len page; ok (chunk, next)

-- The loop; `left` is `pages.len() - steps`, so at 0 one more step makes `steps > pages.len()`.
unfoldable pub read_chunks : ℕ → ℕ → List ℕ → List (List ℕ) → Result (List ℕ)
read_chunks zero page_idx result pages = do
  (chunk, next) ← read_chunk pages page_idx
  if next == no_next_page
      then ok (result ++ chunk)
      else err (storage_corrupted (page_idx % 4294967296))
read_chunks (suc left) page_idx result pages = do
  (chunk, next) ← read_chunk pages page_idx
  elim (next == no_next_page) [
    | true ↦ ok (result ++ chunk)
    | false ↦ read_chunks left next (result ++ chunk) pages
  ]

unfoldable pub read_blob_chain : List (List ℕ) → Result (List ℕ)
read_blob_chain pages = read_chunks (length pages) 0 [] pages
