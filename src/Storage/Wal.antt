-- ===== src/Storage/Wal.antt =====
-- chiffondb-core/src/storage/wal.rs: the write-ahead log. Its file is the list of its bytes; an
-- entry is the page id, a checksum and the 4096 bytes of the page. `offsets` maps a page id to the
-- file offset of its newest entry, `len` is where the next entry goes.
pub mod Index
pub mod Scan
pub mod Log
pub mod Reopen
pub mod Places
pub mod Checkpoint
use chiffondb.Prelude.{
  ℕ, zero, suc, ◌+◌, ◌*◌, ◌%◌, Bool, true, false, Option, none, some, List, [], ◌∷◌, ◌++◌, length,
  take, replicate, Result, ok, err, io, ltb, leb, ◌==◌, if◌then◌else◌, ◌>>=◌, ◌-◌, drop,
}
use chiffondb.Bytes.Slices.{slice, patch}
use chiffondb.Bytes.Words.{le_bytes_u32, from_le_bytes}
use chiffondb.Storage.Page.{page_size}

-- `4 + 4 + PAGE_SIZE`
abbrev pub wal_entry_size : ℕ
wal_entry_size = 4 + 4 + page_size

-- The loop of `checksum`: a wrapping sum of the bytes.
unfoldable pub sum_bytes : ℕ → List ℕ → ℕ
sum_bytes sum [] = sum
sum_bytes sum (b ∷ bs) = sum_bytes ((sum + b) % 4294967296) bs

unfoldable pub checksum : ℕ → List ℕ → ℕ
checksum page_id page = sum_bytes page_id page

-- `HashMap<u32, u64>`: the keys of the list are distinct.
abbrev pub Offsets : Type 0
Offsets = List (ℕ × ℕ)

unfoldable pub get : ℕ → Offsets → Option ℕ
get k [] = none
get k ((j, v) ∷ m) = if j == k then some v else get k m

unfoldable pub insert : ℕ → ℕ → Offsets → Offsets
insert k v [] = (k, v) ∷ []
insert k v ((j, w) ∷ m) = if j == k then (k, v) ∷ m else (j, w) ∷ insert k v m

pub record WalFile : Type 0 where
  pub file : List ℕ
  pub offsets : Offsets
  pub len : ℕ

unfoldable pub contains : WalFile → ℕ → Bool
contains wal page_id = elim (get page_id wal.offsets) [ none ↦ false | some _ ↦ true ]

-- `seek(Start(offset))` and `read_exact` of one entry: `UnexpectedEof` where the file is too short.
unfoldable pub read_entry : List ℕ → ℕ → Option (List ℕ)
read_entry file offset =
    if leb (offset + wal_entry_size) (length file)
    then some (slice offset wal_entry_size file)
    else none

unfoldable pub read : WalFile → ℕ → Result (Option (List ℕ))
read wal page_id = elim (get page_id wal.offsets) [
  | none ↦ ok none
  | some offset ↦ elim (read_entry wal.file offset) [
    | none ↦ err io
    | some entry ↦ ok (some (slice 8 page_size entry))
  ]
]

unfoldable pub entry_bytes : ℕ → List ℕ → List ℕ
entry_bytes page_id page = patch 8 page (
    patch 4 (le_bytes_u32 (checksum page_id page))
      (patch 0 (le_bytes_u32 page_id) (replicate wal_entry_size 0)))

-- `seek(Start(offset))` and `write_all`: a gap behind the end is filled with zeros, and the file
-- grows where the bytes pass its end.
unfoldable pub write_at : ℕ → List ℕ → List ℕ → List ℕ
write_at offset bs file =
    take offset (file ++ replicate (offset - length file) 0)
    ++ (bs ++ drop (offset + length bs) file)

unfoldable pub write : WalFile → ℕ → List ℕ → WalFile
write wal page_id page = record {
  file = write_at wal.len (entry_bytes page_id page) wal.file;
  offsets = insert page_id wal.len wal.offsets;
  len = wal.len + wal_entry_size;
}

unfoldable pub is_empty : WalFile → Bool
is_empty wal = elim wal.offsets [ [] ↦ true | _ ∷ _ ↦ false ]

-- The loop of `load_index` with a bound on its rounds: each round takes a whole entry.
unfoldable pub scan : ℕ → List ℕ → ℕ → Offsets → Offsets × ℕ
scan zero file offset offsets = (offsets, offset)
scan (suc rounds) file offset offsets = elim (read_entry file offset) [
  | none ↦ (offsets, offset)
  | some entry ↦
      let page_id = from_le_bytes (slice 0 4 entry) in
      let stored_cs = from_le_bytes (slice 4 4 entry) in
      elim (stored_cs == checksum page_id (slice 8 page_size entry)) [
        | false ↦ (offsets, offset)
        | true ↦ scan rounds file (offset + wal_entry_size) (insert page_id offset offsets)
      ]
]

-- More rounds than the file has entries.
unfoldable pub load_index : WalFile → WalFile
load_index wal =
    let (offsets, len) = scan (suc (length wal.file)) wal.file 0 wal.offsets in
    record wal { offsets = offsets; len = len }

-- `WalFile::open` on a file that holds these bytes.
unfoldable pub open_wal : List ℕ → WalFile
open_wal file = load_index (record { file = file; offsets = []; len = 0 })

-- `set_len`: cut, or filled up with zeros.
unfoldable pub set_len : ℕ → List ℕ → List ℕ
set_len n file = take n (file ++ replicate (n - length file) 0)

unfoldable pub truncate_to : WalFile → ℕ → WalFile
truncate_to wal target_len =
    load_index (record { file = set_len target_len wal.file; offsets = []; len = 0 })

-- The loop of `checkpoint` over the index: each newest page goes to its place in the database file.
unfoldable pub copy_pages : List ℕ → Offsets → List ℕ → Result (List ℕ)
copy_pages file [] db = ok db
copy_pages file ((page_id, offset) ∷ entries) db = elim (read_entry file offset) [
  | none ↦ err io
  | some entry ↦
      copy_pages file entries (write_at (page_id * page_size) (slice 8 page_size entry) db)
]

unfoldable pub checkpoint : WalFile → List ℕ → Result (WalFile × List ℕ)
checkpoint wal db = do
  db' ← copy_pages wal.file wal.offsets db
  ok (record { file = []; offsets = []; len = 0 }, db')
