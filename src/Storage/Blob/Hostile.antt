-- ===== src/Storage/Blob/Hostile.antt =====
-- `read_blob_chain` on any pages, a corrupt or cyclic chain among them.
use chiffondb.Prelude.{
  ◌%◌, ℕ, zero, suc, ◌≡◌, ◌⊎◌, inl, inr, List, ◌++◌, length, get_elem?, some, All, arith, ok, err,
  Result, ltb, ◌==◌, Bool-cases, storage_corrupted, ◌∷◌, [], Option-cases,
}
use chiffondb.Bytes.Slices.{slice, checked_slice_ok}
use chiffondb.Bytes.Words.{from_le_bytes}
use chiffondb.Storage.Page.{page_size}
use chiffondb.Storage.Blob.{
  chain_data_per_page, chain_header_size, no_next_page, page_at, read_chunk, read_chunks,
  read_blob_chain,
}
use chiffondb.Storage.Blob.Pages.{IsPageBytes}

-- A result that is a value or the corruption of some page.
abbrev pub OkOrCorrupted {ℓ} : {A : Type ℓ} → Result A → Type ℓ
OkOrCorrupted {A} r = ((a : A) × (r ≡ ok a)) ⊎ ((n : ℕ) × (r ≡ err (storage_corrupted n)))

All-get_elem? :
    (pages : List (List ℕ)) (i : ℕ) (page : List ℕ)
    → All IsPageBytes pages
    → get_elem? pages i ≡ some page
    → length page ≡ page_size
All-get_elem? [] i page s e = cc
All-get_elem? (p ∷ pages) zero page s e = let same : p ≡ page = cc in rw (← same) (s.0)
All-get_elem? (p ∷ pages) (suc i) page s e = All-get_elem? pages i page s.1 e

read_chunk_total :
    (pages : List (List ℕ)) (i : ℕ) → All IsPageBytes pages → OkOrCorrupted (read_chunk pages i)
unfolding read_chunk page_at
read_chunk_total pages i s = elim (Option-cases (get_elem? pages i)) [
  | inl out ↦ inr (i % 4294967296, ground arith)
  | inr (page, e) ↦ elim (Bool-cases (ltb chain_data_per_page (from_le_bytes (slice 4 4 page)))) [
    | inl big ↦ inr (i % 4294967296, ground arith)
    | inr fits ↦ inl (
      (
        slice chain_header_size (from_le_bytes (slice 4 4 page)) page,
        from_le_bytes (slice 0 4 page),
      ),
      ground (
        arith,
        All-get_elem? pages i page s e,
        checked_slice_ok chain_header_size (from_le_bytes (slice 4 4 page)) page,
      ),
    )
  ]
]

read_chunks_total :
    (left i : ℕ) (acc : List ℕ) (pages : List (List ℕ))
    → All IsPageBytes pages
    → OkOrCorrupted (read_chunks left i acc pages)
unfolding read_chunks
read_chunks_total zero i acc pages s = elim (read_chunk_total pages i s) [
  | inr (n, e) ↦ inr (n, rw e)
  | inl ((chunk, next), e) ↦ elim (Bool-cases (next == no_next_page)) [
    | inl last ↦ inl (acc ++ chunk, ground arith)
    | inr more ↦ inr (i % 4294967296, ground arith)
  ]
]
read_chunks_total (suc left) i acc pages s = elim (read_chunk_total pages i s) [
  | inr (n, e) ↦ inr (n, rw e)
  | inl ((chunk, next), e) ↦ elim (Bool-cases (next == no_next_page)) [
    | inl last ↦ inl (acc ++ chunk, ground arith)
    | inr more ↦ elim (read_chunks_total left next (acc ++ chunk) pages s) [
      | inl (a, run) ↦ inl (a, ground arith)
      | inr (n, run) ↦ inr (n, ground arith)
    ]
  ]
]

-- Whatever the pages hold, a read of a chain ends, in a value or in `StorageCorrupted`: no cycle of
-- links loops for ever, and no length word makes it panic.
pub read_blob_chain_total :
    (pages : List (List ℕ)) → All IsPageBytes pages → OkOrCorrupted (read_blob_chain pages)
unfolding read_blob_chain
read_blob_chain_total pages s = read_chunks_total (length pages) 0 [] pages s
