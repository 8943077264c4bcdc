-- ===== src/Storage/File/Memory.antt =====
-- The memory backend: its pages are those of the contract of a database file.
use chiffondb.Prelude.{
  ℕ, ◌+◌, ◌*◌, ◌<◌, ◌≤◌, ◌≡◌, ◌≢◌, ◌⊎◌, inl, inr, refl, sym, ap, ◌∙◌, Bool-cases, List, [], ◌∷◌,
  ◌++◌, length, length-append, take, Result, ok, err, panic, ltb, ltb→lt, ltb_false→le, lt→ltb,
  true, ◌==◌, ==_iff, arith,
}
use chiffondb.Bytes.Slices.{
  slice, patch, length-slice, length-patch, slice-patch_self, slice-patch_apart,
}
use chiffondb.Storage.Wal.Index.{slice-length-append}
use chiffondb.Storage.Wal.Places.{slice-append_left}
use chiffondb.Storage.Page.{page_size}
use chiffondb.Storage.Directory.Mapping.{IsPageFile}
use chiffondb.Storage.Topology.Records.{>>=_inverse}
use chiffondb.Storage.File.{
  DatabaseFile, memory_read, memory_write, memory_append, memory_backend, read_page, write_page,
  append_page, next_page_count, page_file,
}

pages_apart : (i j : ℕ) → i ≢ j → (j * 4096 + 4096 ≤ i * 4096) ⊎ (i * 4096 + 4096 ≤ j * 4096)
pages_apart i j ne = elim (Bool-cases (ltb i j)) [
  | inl lt ↦ inr (omega (arith, ltb→lt i j lt))
  | inr ge ↦ inl (omega (arith, ltb_false→le i j ge))
]

pub memory_read_lem :
    (bytes page : List ℕ) (pid : ℕ)
    → memory_read bytes pid ≡ ok page
    → (pid * 4096 + 4096 ≤ length bytes) × (slice (pid * 4096) 4096 bytes ≡ page)
unfolding memory_read
memory_read_lem bytes page pid h = elim (Bool-cases (ltb (length bytes) (pid * 4096 + 4096))) [
  | inl short ↦ absurd cc (rw short at h)
  | inr fits ↦ (ltb_false→le _ _ fits, cc (rw fits at h))
]

memory_read_fits :
    (bytes : List ℕ) (pid : ℕ)
    → pid * 4096 + 4096 ≤ length bytes
    → memory_read bytes pid ≡ ok (slice (pid * 4096) 4096 bytes)
unfolding memory_read
memory_read_fits bytes pid h = ground arith

memory_write_lem :
    (bytes bytes' page : List ℕ) (pid : ℕ)
    → memory_write bytes pid page ≡ ok bytes'
    → (pid * 4096 + 4096 ≤ length bytes)
      × (length page ≡ 4096)
      × (patch (pid * 4096) page bytes ≡ bytes')
unfolding memory_write
memory_write_lem bytes bytes' page pid h =
    elim (Bool-cases (ltb (length bytes) (pid * 4096 + 4096))) [
      | inl short ↦ absurd cc (rw short at h)
      | inr fits ↦ elim (Bool-cases (length page == 4096)) [
        | inl whole ↦
            (ltb_false→le _ _ fits, (==_iff (length page) 4096).0 whole, cc (rw (fits, whole) at h))
        | inr other ↦ absurd cc (rw (fits, other) at h)
      ]
    ]

memory_write_self :
    (bytes bytes' page : List ℕ) (pid : ℕ)
    → memory_write bytes pid page ≡ ok bytes'
    → memory_read bytes' pid ≡ ok page
memory_write_self bytes bytes' page pid h =
    let (fits, whole, e) = memory_write_lem bytes bytes' page pid h in
    rw (← e) (
      memory_read_fits (patch (pid * 4096) page bytes) pid
        (omega (arith, length-patch (pid * 4096) page bytes))
      ∙ ap ok (
          ap (λ (n : ℕ). slice (pid * 4096) n (patch (pid * 4096) page bytes)) (sym whole)
          ∙ slice-patch_self (pid * 4096) page bytes (omega arith)))

memory_write_other :
    (bytes bytes' page : List ℕ) (pid other : ℕ)
    → memory_write bytes pid page ≡ ok bytes'
    → pid ≢ other
    → memory_read bytes' other ≡ memory_read bytes other
unfolding memory_read
memory_write_other bytes bytes' page pid other h ne =
    let (fits, whole, e) = memory_write_lem bytes bytes' page pid h in
    let same : slice (other * 4096) 4096 (patch (pid * 4096) page bytes)
        ≡ slice (other * 4096) 4096 bytes =
      slice-patch_apart (other * 4096) 4096 (pid * 4096) page bytes
        (omega (arith, pages_apart pid other ne, whole)) in
    rw (← e) (rw (length-patch (pid * 4096) page bytes, same) refl)

abbrev backend_of : Result (DatabaseFile (List ℕ)) → List ℕ
backend_of (ok file) = file.backend
backend_of (err e) = []
backend_of panic = []

-- Over the memory backend, reads and writes of pages keep the contract that the page directories
-- rely on: pages of 4096 bytes, a written page reads back, every other page reads as before.
pub memory-IsPageFile : IsPageFile (page_file memory_backend)
unfolding read_page write_page
memory-IsPageFile = record {
  whole = λ file pid page h.
      let (fits, e) = memory_read_lem file.backend page pid h in
      rw (← e) (length-slice (pid * 4096) 4096 file.backend fits);
  written = λ file file' pid page h.
      let (bytes, w, e) = >>=_inverse (memory_write file.backend pid page) _ file' h in
      let b : bytes ≡ file'.backend = ap backend_of e in
      rw (← b) (memory_write_self file.backend bytes page pid w);
  elsewhere = λ file file' pid other page h ne.
      let (bytes, w, e) = >>=_inverse (memory_write file.backend pid page) _ file' h in
      let b : bytes ≡ file'.backend = ap backend_of e in
      rw (← b) (memory_write_other file.backend bytes page pid other w ne);
}

take-all : (xs : List ℕ) → take (length xs) xs ≡ xs
take-all [] = refl
take-all (x ∷ xs) = ap (◌∷◌ x) (take-all xs)

-- Over the memory backend with as many bytes as its pages take, a page of 4096 bytes that is appended
-- while the count stays in a u32 gets the page count as its number and is read back under it; every
-- older page reads as before, and the bytes are again as many as the pages take.
pub append_page_effect :
    (file : DatabaseFile (List ℕ)) (page : List ℕ)
    → length file.backend ≡ file.logical_page_count * page_size
    → length page ≡ page_size
    → file.logical_page_count + 1 < 4294967296
    → (file' : DatabaseFile (List ℕ)) × (append_page memory_backend file page
        ≡ ok (file.logical_page_count, file'))
      × (read_page memory_backend file' file.logical_page_count ≡ ok page)
      × ((other : ℕ)
          → other < file.logical_page_count
          → read_page memory_backend file' other ≡ read_page memory_backend file other)
      × (length file'.backend ≡ file'.logical_page_count * page_size)
unfolding append_page memory_append read_page next_page_count
append_page_effect file page size whole small =
    let longer = length-append file.backend page in
    let new : slice (file.logical_page_count * 4096) 4096 (file.backend ++ page) ≡ page =
      rw (← size, ← whole) (slice-length-append file.backend page (length page) ∙ take-all page) in
    let grows : ltb (file.logical_page_count + 1) 4294967296 ≡ true = lt→ltb _ _ small in
    (
      record file {
        backend = file.backend ++ page;
        logical_page_count = file.logical_page_count + 1;
      },
      rw grows refl,
      memory_read_fits (file.backend ++ page) file.logical_page_count (omega arith) ∙ ap ok new,
      λ other lt.
          memory_read_fits (file.backend ++ page) other (omega arith)
          ∙ ap ok (slice-append_left (other * 4096) 4096 file.backend page (omega arith))
          ∙ sym (memory_read_fits file.backend other (omega arith)),
      omega arith,
    )
