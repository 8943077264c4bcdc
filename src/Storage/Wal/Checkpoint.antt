-- ===== src/Storage/Wal/Checkpoint.antt =====
-- `checkpoint`: the newest pages go to the database file, and the log is emptied.
use chiffondb.Prelude.{
  ℕ, ◌+◌, ◌*◌, ◌≤◌, ◌≡◌, ◌≢◌, ◌⊎◌, inl, inr, refl, ap, ◌∙◌, sym, Option, none, some, List, [], ◌∷◌,
  length, arith, ◌==◌, if◌then◌else◌, Bool-cases, ok,
}
use chiffondb.Bytes.Slices.{slice, length-slice}
use chiffondb.Storage.Page.{page_size}
use chiffondb.Storage.Wal.{
  WalFile, wal_entry_size, entry_bytes, read_entry, get, insert, Offsets, write_at, copy_pages,
  checkpoint,
}
use chiffondb.Storage.Wal.Index.{Entry, page-entry_bytes, get-insert}
use chiffondb.Storage.Wal.Scan.{encode, newest, index_from}
use chiffondb.Storage.Wal.Log.{Represents, Located, Located-newest}
use chiffondb.Storage.Wal.Places.{slice-write_at_self, slice-write_at_apart, length-write_at-le}

-- The page `p` of a database file.
abbrev pub page_of : ℕ → List ℕ → List ℕ
page_of p db = slice (p * page_size) page_size db

abbrev Distinct : Offsets → Type 0
Distinct [] = Unit
Distinct ((p, o) ∷ m) = (get p m ≡ none) × Distinct m

Distinct-insert : (k v : ℕ) (m : Offsets) → Distinct m → Distinct (insert k v m)
unfolding insert get
Distinct-insert k v [] d = (refl, tt)
Distinct-insert k v ((j, w) ∷ m) d = elim (Bool-cases (j == k)) [
  | inl same ↦ let e : j ≡ k = ground arith in rw same (rw (← e) (d.0), d.1)
  | inr other ↦ rw other (ground (arith, get-insert k j v m), Distinct-insert k v m d.1)
]

Distinct-index_from :
    (log : List Entry) (offset : ℕ) (m : Offsets) → Distinct m → Distinct (index_from offset m log)
unfolding index_from
Distinct-index_from [] offset m d = d
Distinct-index_from (e ∷ log) offset m d =
    Distinct-index_from log (offset + wal_entry_size) (insert (e.0) offset m)
      (Distinct-insert (e.0) offset m d)

-- Every offset of the index is that of a whole entry.
abbrev Keyed : List ℕ → Offsets → Type 0
Keyed file m = (p o : ℕ) → get p m ≡ some o → (e : List ℕ) × (read_entry file o ≡ some e)

Keyed-tail :
    (file : List ℕ) (j w : ℕ) (m : Offsets)
    → get j m ≡ none
    → Keyed file ((j, w) ∷ m)
    → Keyed file m
Keyed-tail file j w m fresh h p o e = h p o (unfold get in later)
  where
    later : get p ((j, w) ∷ m) ≡ some o
    later = elim (Bool-cases (j == p)) [
      | inl same ↦ let q : j ≡ p = ground arith in absurd (cc (rw q at fresh))
      | inr other ↦ unfold get in rw other e
    ]

length-read_entry :
    (file e : List ℕ) (o : ℕ) → read_entry file o ≡ some e → length e ≡ wal_entry_size
unfolding read_entry
length-read_entry file e o h = ground (arith, length-slice o wal_entry_size file)

-- The old page, unless the map has a new one; old pages count where the old file reaches.
abbrev pub Updated : List ℕ → List ℕ → ℕ → Option (List ℕ) → Type 0
Updated db db' p none = p * page_size + page_size ≤ length db → page_of p db' ≡ page_of p db
Updated db db' p (some page) = page_of p db' ≡ page

pages_apart :
    (p q : ℕ)
    → p ≢ q
    → (p * page_size + page_size ≤ q * page_size) ⊎ (q * page_size + page_size ≤ p * page_size)
pages_apart p q ne = ground arith

-- What the copied pages are at page `p`, which the rest of the index may name.
abbrev Copied : List ℕ → List ℕ → List ℕ → ℕ → Option ℕ → Type 0
Copied file db db' p none = p * page_size + page_size ≤ length db → page_of p db' ≡ page_of p db
Copied file db db' p (some o) =
    (e : List ℕ) → read_entry file o ≡ some e → page_of p db' ≡ slice 8 page_size e

-- The first entry of the index, and what the rest of the index leaves of it.
Copied-step :
    (file e db db' : List ℕ) (j w p : ℕ) (place : Option ℕ)
    → read_entry file w ≡ some e
    → length (slice 8 page_size e) ≡ page_size
    → (j ≡ p → place ≡ none)
    → Copied file (write_at (j * page_size) (slice 8 page_size e) db) db' p place
    → Copied file db db' p (if j == p then some w else place)
Copied-step file e db db' j w p place read len fresh copied = elim (Bool-cases (j == p)) [
  | inl same ↦
      let jp : j ≡ p = ground arith in
      rw same (λ e' read'.
        let newest_page : e' ≡ e = cc in
        (rw (fresh jp) at copied)
          (omega (arith, length-write_at-le (j * page_size) (slice 8 page_size e) db))
        ∙ ap (λ (q : ℕ). page_of q (write_at (j * page_size) (slice 8 page_size e) db)) (sym jp)
        ∙ ap
            (λ (n : ℕ). slice (j * page_size) n (write_at (j * page_size) (slice 8 page_size e) db))
            (sym len)
        ∙ slice-write_at_self (j * page_size) (slice 8 page_size e) db
        ∙ ap (slice 8 page_size) (sym newest_page))
  | inr other ↦ rw other (kept place copied (ground arith))
]
  where
    kept :
        (place : Option ℕ)
        → Copied file (write_at (j * page_size) (slice 8 page_size e) db) db' p place
        → p ≢ j
        → Copied file db db' p place
    kept none copied ne = λ fits.
        copied (omega (arith, length-write_at-le (j * page_size) (slice 8 page_size e) db))
        ∙ slice-write_at_apart (j * page_size) (slice 8 page_size e) db (p * page_size) page_size
            fits (rw len (pages_apart p j ne))
    kept (some o) copied ne = copied

copy_pages_lem :
    (file : List ℕ) (m : Offsets) (db : List ℕ)
    → Distinct m
    → Keyed file m
    → (db' : List ℕ) × (copy_pages file m db ≡ ok db') × ((p : ℕ) → Copied file db db' p (get p m))
unfolding copy_pages get
copy_pages_lem file [] db d h = (db, refl, λ p fits. refl)
copy_pages_lem file ((j, w) ∷ m) db d h =
    let (e, read) = h j w (unfold get in ground arith) in
    let content = slice 8 page_size e in
    let len : length content ≡ page_size =
      length-slice 8 page_size e (omega (arith, length-read_entry file e w read)) in
    let next = write_at (j * page_size) content db in
    let grown = length-write_at-le (j * page_size) content db in
    let (db', run, copied) = copy_pages_lem file m next d.1 (Keyed-tail file j w m d.0 h) in
    (
      db',
      rw (read, copy_pages) run,
      λ p. Copied-step file e db db' j w p (get p m) read len (λ same. rw (← same) d.0) (copied p),
    )

Keyed-Represents :
    (wal : WalFile) (log : List Entry) (rest : List ℕ)
    → Represents wal log rest
    → Keyed wal.file wal.offsets
Keyed-Represents wal log rest r p o e =
    go (get p wal.offsets) (newest p log) e (Located-newest wal log rest p r)
  where
    go :
        (place : Option ℕ) (page : Option (List ℕ))
        → place ≡ some o
        → Located wal.file p place page
        → (e : List ℕ) × (read_entry wal.file o ≡ some e)
    go none page h l = cc
    go (some o') none h l = absurd l
    go (some o') (some page) h l = (entry_bytes p page, let same : o' ≡ o = cc in rw (← same) (l.0))

Updated-Copied :
    (file db db' : List ℕ) (p : ℕ) (place : Option ℕ) (page : Option (List ℕ))
    → Located file p place page
    → Copied file db db' p place
    → Updated db db' p page
Updated-Copied file db db' p none none l c = c
Updated-Copied file db db' p none (some page) l c = absurd l
Updated-Copied file db db' p (some o) none l c = absurd l
Updated-Copied file db db' p (some o) (some page) (found, fits) c =
    c (entry_bytes p page) found ∙ page-entry_bytes p page fits

-- A checkpoint of a log always succeeds: in the database file every page that the log names is the
-- newest one of the log, every other page within the old file is as before, and the log is empty.
pub checkpoint_lem :
    (wal : WalFile) (log : List Entry) (rest db : List ℕ)
    → Represents wal log rest
    → (wal' : WalFile) × (db' : List ℕ) × (checkpoint wal db ≡ ok (wal', db'))
      × Represents wal' [] []
      × ((p : ℕ) → Updated db db' p (newest p log))
unfolding checkpoint encode index_from
checkpoint_lem wal log rest db r =
    let distinct : Distinct wal.offsets = rw r.offsets_eq (Distinct-index_from log 0 [] tt) in
    let (db', run, copied) =
      copy_pages_lem wal.file wal.offsets db distinct (Keyed-Represents wal log rest r) in
    (
      record { file = []; offsets = []; len = 0 },
      db',
      rw run,
      record { entries = tt; file_eq = refl; len_eq = refl; offsets_eq = refl },
      λ p.
          Updated-Copied wal.file db db' p (get p wal.offsets) (newest p log)
            (Located-newest wal log rest p r) (copied p),
    )
