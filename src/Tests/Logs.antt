-- ===== src/Tests/Logs.antt =====
-- storage/wal.rs on a log of two entries for one page.
use chiffondb.Prelude.{
  ℕ, ◌*◌, ◌≡◌, ◌≢◌, refl, some, List, [], ◌∷◌, ◌++◌, length, replicate, length-replicate, drop, ok,
  arith, All,
}
use chiffondb.Bytes.Slices.{slice}
use chiffondb.Bytes.Words.{from_le_bytes}
use chiffondb.Storage.Wal
use chiffondb.Storage.Wal.{WalFile, open_wal}
use chiffondb.Storage.Wal.Index.{Entry, IsEntry}
use chiffondb.Storage.Wal.Scan.{encode, newest, newest_from, cut}
use chiffondb.Storage.Wal.Log
use chiffondb.Storage.Wal.Log.{Represents}
use chiffondb.Storage.Wal.Reopen
use chiffondb.Storage.Wal.Checkpoint

abbrev page : ℕ → List ℕ
page b = replicate 4096 b

abbrev log : List Entry
log = (3, page 1) ∷ (3, page 2) ∷ []

log-IsEntry : All IsEntry log
log-IsEntry = ((omega arith, length-replicate 4096 1), ((omega arith, length-replicate 4096 2), tt))

-- A crash left five bytes of an entry.
abbrev torn : List ℕ
torn = 3 ∷ 0 ∷ 0 ∷ 0 ∷ 1 ∷ []

abbrev opened : WalFile
opened = open_wal (encode log ++ torn)

opened-Represents : Represents opened log torn
opened-Represents = Log.open_wal-Represents log torn log-IsEntry (cut (omega arith))

open_wal-Represents_example : Represents opened log torn
open_wal-Represents_example = Log.open_wal-Represents log torn log-IsEntry (cut (omega arith))

read-newest_example : Wal.read opened 3 ≡ ok (some (page 2))
unfolding newest_from
read-newest_example = Log.read-newest opened log torn 3 opened-Represents

write-Represents_example :
    Represents (Wal.write opened 9 (page 5)) (log ++ ((9, page 5) ∷ [])) (drop 4104 torn)
write-Represents_example =
    Log.write-Represents opened log torn 9 (page 5) opened-Represents
      (omega arith, length-replicate 4096 5)

truncate_to-Represents_example :
    Represents (Wal.truncate_to opened (4104 * 1)) ((3, page 1) ∷ []) []
truncate_to-Represents_example =
    Log.truncate_to-Represents opened ((3, page 1) ∷ []) ((3, page 2) ∷ []) torn opened-Represents
      ((omega arith, length-replicate 4096 1), tt)

checkpoint_example :
    (wal' : WalFile) × (db' : List ℕ) × (Wal.checkpoint opened (page 0) ≡ ok (wal', db'))
    × Represents wal' [] []
    × ((p : ℕ) → Checkpoint.Updated (page 0) db' p (newest p log))
checkpoint_example = Checkpoint.checkpoint_lem opened log torn (page 0) opened-Represents

-- An entry whose checksum is 1 too large.
abbrev damaged : List ℕ
damaged = 0 ∷ 0 ∷ 0 ∷ 0 ∷ 1 ∷ replicate 4099 0

length-damaged : length damaged ≡ 4104
length-damaged = omega (arith, length-replicate {A = ℕ} 4099 0)

stored_of_damaged : from_le_bytes (slice 4 4 damaged) ≡ 1
unfolding from_le_bytes slice replicate
stored_of_damaged = refl

sum_of_damaged : Wal.checksum (from_le_bytes (slice 0 4 damaged)) (slice 8 4096 damaged) ≡ 0
unfolding Wal.checksum Wal.sum_bytes from_le_bytes slice replicate
sum_of_damaged = refl

checksum-damaged :
    from_le_bytes (slice 4 4 damaged)
    ≢ Wal.checksum (from_le_bytes (slice 0 4 damaged)) (slice 8 4096 damaged)
checksum-damaged e = omega (arith, stored_of_damaged, sum_of_damaged)

open_wal_stale_example :
    Represents
      (open_wal (encode log ++ (damaged ++ encode ((8, page 6) ∷ []))))
      log
      (damaged ++ encode ((8, page 6) ∷ []))
    × Represents
        (open_wal
          (Wal.write
            (open_wal (encode log ++ (damaged ++ encode ((8, page 6) ∷ []))))
            9
            (page 5)).file)
        ((log ++ ((9, page 5) ∷ [])) ++ ((8, page 6) ∷ []))
        []
open_wal_stale_example =
    Reopen.open_wal_stale log ((8, page 6) ∷ []) damaged 9 (page 5) log-IsEntry
      ((omega arith, length-replicate 4096 6), tt) (omega arith, length-replicate 4096 5)
      length-damaged checksum-damaged

open_wal_zero_tail_example :
    Represents (open_wal (encode log ++ replicate 4104 0)) (log ++ ((0, page 0) ∷ [])) []
open_wal_zero_tail_example = Reopen.open_wal_zero_tail log log-IsEntry
