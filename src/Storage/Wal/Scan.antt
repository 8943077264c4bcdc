-- ===== src/Storage/Wal/Scan.antt =====
-- A log as the list of its entries, and what `load_index` finds in a file.
use chiffondb.Prelude.{
  ℕ, zero, suc, ◌+◌, ◌*◌, ◌<◌, ◌≡◌, ◌≢◌, refl, ap, ◌∙◌, sym, Option, none, some, List, [], ◌∷◌,
  ◌++◌, length, arith, ◌==◌, All, if◌then◌else◌, length-append,
}
use chiffondb.Bytes.Slices.{slice}
use chiffondb.Bytes.Words.{from_le_bytes}
use chiffondb.Storage.Page.{page_size}
use chiffondb.Storage.Wal.{wal_entry_size, checksum, entry_bytes, read_entry, insert, scan, Offsets}
use chiffondb.Storage.Wal.Index.{
  Entry, IsEntry, length-entry_bytes, page_id-entry_bytes, checksum-entry_bytes, page-entry_bytes,
  read_entry-append, read_entry_short,
}
use mathlib.Core.List.{append_assoc}
use mathlib.Core.Path.{ap₂}

-- The bytes of a log.
unfoldable pub encode : List Entry → List ℕ
encode [] = []
encode (e ∷ log) = entry_bytes (e.0) (e.1) ++ encode log

-- The newest page that a log holds for an id, `older` where it holds none.
unfoldable pub newest_from : ℕ → Option (List ℕ) → List Entry → Option (List ℕ)
newest_from p older [] = older
newest_from p older (e ∷ log) = newest_from p (if e.0 == p then some (e.1) else older) log

abbrev pub newest : ℕ → List Entry → Option (List ℕ)
newest p log = newest_from p none log

-- The index of a log whose first entry stands at `offset`.
unfoldable pub index_from : ℕ → Offsets → List Entry → Offsets
index_from offset offsets [] = offsets
index_from offset offsets (e ∷ log) =
    index_from (offset + wal_entry_size) (insert (e.0) offset offsets) log

-- No entry begins the bytes: fewer than an entry has, or a checksum that does not fit.
pub data NoEntry (rest : List ℕ) : Type 0 where
  cut : length rest < wal_entry_size → NoEntry rest
  broken :
      (bytes more : List ℕ)
      → rest ≡ bytes ++ more
      → length bytes ≡ wal_entry_size
      → from_le_bytes (slice 4 4 bytes)
        ≢ checksum (from_le_bytes (slice 0 4 bytes)) (slice 8 page_size bytes)
      → NoEntry rest

pub length-encode : (log : List Entry) → length (encode log) ≡ wal_entry_size * length log
unfolding encode
length-encode [] = omega arith
length-encode (e ∷ log) = omega (
  arith,
  length-append (entry_bytes (e.0) (e.1)) (encode log),
  length-entry_bytes (e.0) (e.1),
  length-encode log,
)

pub encode-append : (log more : List Entry) → encode (log ++ more) ≡ encode log ++ encode more
unfolding encode
encode-append [] more = refl
encode-append (e ∷ log) more =
    ap (◌++◌ (entry_bytes (e.0) (e.1))) (encode-append log more)
    ∙ sym (append_assoc (entry_bytes (e.0) (e.1)) (encode log) (encode more))

module _ (file : List ℕ) (offset : ℕ) (offsets : Offsets) where
  scan-none :
      (rounds : ℕ)
      → read_entry file offset ≡ none
      → scan rounds file offset offsets ≡ (offsets, offset)
  unfolding scan
  scan-none zero h = refl
  scan-none (suc rounds) h = ground arith

  scan_broken :
      (rounds : ℕ) (bytes : List ℕ)
      → read_entry file offset ≡ some bytes
      → from_le_bytes (slice 4 4 bytes)
        ≢ checksum (from_le_bytes (slice 0 4 bytes)) (slice 8 page_size bytes)
      → scan rounds file offset offsets ≡ (offsets, offset)
  unfolding scan
  scan_broken zero bytes h bad = refl
  scan_broken (suc rounds) bytes h bad = ground arith

  scan_entry :
      (rounds : ℕ) (e : Entry)
      → IsEntry e
      → read_entry file offset ≡ some (entry_bytes (e.0) (e.1))
      → scan (suc rounds) file offset offsets
        ≡ scan rounds file (offset + wal_entry_size) (insert (e.0) offset offsets)
  unfolding scan
  scan_entry rounds e fits h = ground (
    arith,
    page_id-entry_bytes (e.0) (e.1) fits,
    checksum-entry_bytes (e.0) (e.1) fits,
    page-entry_bytes (e.0) (e.1) fits,
  )

scan_stops :
    (rounds : ℕ) (pre rest : List ℕ) (offsets : Offsets)
    → NoEntry rest
    → scan rounds (pre ++ rest) (length pre) offsets ≡ (offsets, length pre)
scan_stops rounds pre rest offsets (cut short) =
    scan-none (pre ++ rest) (length pre) offsets rounds (read_entry_short pre rest short)
scan_stops rounds pre rest offsets (broken bytes more e l bad) =
    scan_broken (pre ++ rest) (length pre) offsets rounds bytes
      (ap (λ (xs : List ℕ). read_entry (pre ++ xs) (length pre)) e
        ∙ read_entry-append pre bytes more l)
      bad

-- The scan of a log in front of bytes that begin no entry finds exactly the log.
pub scan-encode :
    (log : List Entry) (rounds : ℕ) (pre rest file : List ℕ) (offset : ℕ) (offsets : Offsets)
    → All IsEntry log
    → NoEntry rest
    → length log < rounds
    → file ≡ pre ++ (encode log ++ rest)
    → offset ≡ length pre
    → scan rounds file offset offsets
      ≡ (index_from offset offsets log, offset + wal_entry_size * length log)
unfolding index_from
scan-encode [] rounds pre rest file offset offsets fits h lt e o =
    let none_more : offset + wal_entry_size * 0 ≡ offset = omega arith in
    rw (none_more, e, o) (unfold encode in scan_stops rounds pre rest offsets h)
scan-encode (x ∷ log) zero pre rest file offset offsets fits h lt e o = elim lt [ ]
scan-encode (x ∷ log) (suc rounds) pre rest file offset offsets fits h lt e o =
    let here : file ≡ pre ++ (entry_bytes (x.0) (x.1) ++ (encode log ++ rest)) =
      e
      ∙ (unfold encode in
          ap (◌++◌ pre) (append_assoc (entry_bytes (x.0) (x.1)) (encode log) rest)) in
    let l = length-entry_bytes (x.0) (x.1) in
    scan_entry file offset offsets rounds x (fits.0) (
      ap₂ read_entry here o
      ∙ read_entry-append pre (entry_bytes (x.0) (x.1)) (encode log ++ rest) l)
    ∙ scan-encode log rounds (pre ++ entry_bytes (x.0) (x.1)) rest file (offset + wal_entry_size)
        (insert (x.0) offset offsets) (fits.1) h (omega arith)
        (here ∙ sym (append_assoc pre (entry_bytes (x.0) (x.1)) (encode log ++ rest)))
        (omega (arith, length-append pre (entry_bytes (x.0) (x.1))))
    ∙ ap (λ (n : ℕ). (index_from (offset + wal_entry_size) (insert (x.0) offset offsets) log, n))
        (omega arith)
