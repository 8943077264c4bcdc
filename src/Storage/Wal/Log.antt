-- ===== src/Storage/Wal/Log.antt =====
-- The log file as a list of entries: what each operation of `WalFile` does to that list.
use chiffondb.Prelude.{
  ℕ, suc, ◌+◌, ◌-◌, ◌*◌, ◌≡◌, inl, inr, refl, ap, ◌∙◌, sym, Option, none, some, List, [], ◌∷◌, ◌++◌,
  length, take, drop, arith, ◌==◌, All, if◌then◌else◌, length-append, Bool-cases, ok, replicate,
  All-append,
}
use chiffondb.Bytes.Slices.{take-length}
use chiffondb.Storage.Wal.{
  WalFile, wal_entry_size, entry_bytes, read_entry, get, insert, Offsets, read, write, write_at,
  load_index, open_wal, truncate_to, set_len,
}
use chiffondb.Storage.Wal.Index.{
  Entry, IsEntry, length-entry_bytes, page-entry_bytes, read_entry-append, get-insert,
  drop-length-append,
}
use chiffondb.Storage.Wal.Scan.{
  encode, newest_from, newest, index_from, NoEntry, cut, length-encode, encode-append, scan-encode,
}
use mathlib.Core.List.{append_assoc, append-nil}
use mathlib.Core.Path.{ap₂}

-- The log file holds `log`, and then bytes that a scan does not take for entries.
pub record Represents (wal : WalFile) (log : List Entry) (rest : List ℕ) : Type 0 where
  pub entries : All IsEntry log
  pub file_eq : wal.file ≡ encode log ++ rest
  pub len_eq : wal.len ≡ wal_entry_size * length log
  pub offsets_eq : wal.offsets ≡ index_from 0 [] log

-- Opening the bytes of a log of entries that fit their types, with bytes behind it that a scan does
-- not take for an entry, gives the index of that log.
pub open_wal-Represents :
    (log : List Entry) (rest : List ℕ)
    → All IsEntry log
    → NoEntry rest
    → Represents (open_wal (encode log ++ rest)) log rest
unfolding open_wal load_index
open_wal-Represents log rest fits h =
    let found =
      scan-encode log (suc (length (encode log ++ rest))) [] rest (encode log ++ rest) 0 [] fits h
        (omega (arith, length-encode log, length-append (encode log) rest)) refl refl in
    record {
      entries = fits;
      file_eq = refl;
      len_eq = ap (λ (r : Offsets × ℕ). r.1) found ∙ omega arith;
      offsets_eq = ap (λ (r : Offsets × ℕ). r.0) found;
    }

-- Where the index finds the page `p`, and which page stands there.
abbrev pub Located : List ℕ → ℕ → Option ℕ → Option (List ℕ) → Type 0
Located file p none none = Unit
Located file p (some o) (some page) =
    (read_entry file o ≡ some (entry_bytes p page)) × IsEntry (p, page)
Located file p none (some page) = ⊥
Located file p (some o) none = ⊥

Located-insert :
    (file : List ℕ) (p : ℕ) (x : Entry) (offset : ℕ) (place : Option ℕ) (older : Option (List ℕ))
    → read_entry file offset ≡ some (entry_bytes (x.0) (x.1))
    → IsEntry x
    → Located file p place older
    → Located file p
        (if x.0 == p then some offset else place)
        (if x.0 == p then some (x.1) else older)
Located-insert file p x offset place older found fits h = elim (Bool-cases (x.0 == p)) [
  | inl same ↦ let e : x.0 ≡ p = ground arith in rw same (rw (← e) found, rw (← e) fits)
  | inr other ↦ rw other h
]

Located-index_from :
    (p : ℕ) (log : List Entry) (pre rest file : List ℕ) (offset : ℕ) (offsets : Offsets)
    (older : Option (List ℕ))
    → All IsEntry log
    → file ≡ pre ++ (encode log ++ rest)
    → offset ≡ length pre
    → Located file p (get p offsets) older
    → Located file p (get p (index_from offset offsets log)) (newest_from p older log)
unfolding index_from newest_from
Located-index_from p [] pre rest file offset offsets older fits e o h = h
Located-index_from p (x ∷ log) pre rest file offset offsets older fits e o h =
    let here : file ≡ pre ++ (entry_bytes (x.0) (x.1) ++ (encode log ++ rest)) =
      e
      ∙ (unfold encode in
          ap (◌++◌ pre) (append_assoc (entry_bytes (x.0) (x.1)) (encode log) rest)) in
    let found : read_entry file offset ≡ some (entry_bytes (x.0) (x.1)) =
      ap₂ read_entry here o
      ∙ read_entry-append pre (entry_bytes (x.0) (x.1)) (encode log ++ rest)
          (length-entry_bytes (x.0) (x.1)) in
    Located-index_from p log (pre ++ entry_bytes (x.0) (x.1)) rest file (offset + wal_entry_size)
      (insert (x.0) offset offsets) (if x.0 == p then some (x.1) else older) (fits.1)
      (here ∙ sym (append_assoc pre (entry_bytes (x.0) (x.1)) (encode log ++ rest)))
      (omega (arith, length-append pre (entry_bytes (x.0) (x.1)), length-entry_bytes (x.0) (x.1)))
      (rw get-insert (Located-insert file p x offset (get p offsets) older found (fits.0) h))

read-Located :
    (wal : WalFile) (p : ℕ) (place : Option ℕ) (page : Option (List ℕ))
    → get p wal.offsets ≡ place
    → Located wal.file p place page
    → read wal p ≡ ok page
unfolding read
read-Located wal p none none e h = ground arith
read-Located wal p none (some page) e h = absurd h
read-Located wal p (some o) none e h = absurd h
read-Located wal p (some o) (some page) e (found, fits) =
    ground (arith, page-entry_bytes p page fits)

pub Located-newest :
    (wal : WalFile) (log : List Entry) (rest : List ℕ) (p : ℕ)
    → Represents wal log rest
    → Located wal.file p (get p wal.offsets) (newest p log)
Located-newest wal log rest p r = rw r.offsets_eq (
    Located-index_from p log [] rest wal.file 0 [] none r.entries r.file_eq refl (unfold get in tt))

-- Reading a page gives the newest one that the log holds, and `none` where it holds none: the read
-- never fails.
pub read-newest :
    (wal : WalFile) (log : List Entry) (rest : List ℕ) (p : ℕ)
    → Represents wal log rest
    → read wal p ≡ ok (newest p log)
read-newest wal log rest p r =
    read-Located wal p (get p wal.offsets) (newest p log) refl (Located-newest wal log rest p r)

take-length-append :
    (pre suf : List ℕ) (n : ℕ) → take (length pre) ((pre ++ suf) ++ replicate n 0) ≡ pre
take-length-append pre suf n =
    ap (take (length pre)) (append_assoc pre suf (replicate n 0))
    ∙ take-length pre (suf ++ replicate n 0)

write_at-append :
    (pre bs suf : List ℕ)
    → write_at (length pre) bs (pre ++ suf) ≡ pre ++ (bs ++ drop (length bs) suf)
unfolding write_at
write_at-append pre bs suf =
    ap₂ (λ (xs ys : List ℕ). xs ++ (bs ++ ys))
      (take-length-append pre suf (length pre - length (pre ++ suf)))
      (drop-length-append pre suf (length bs))

set_len-append : (pre suf : List ℕ) → set_len (length pre) (pre ++ suf) ≡ pre
unfolding set_len
set_len-append pre suf = take-length-append pre suf (length pre - length (pre ++ suf))

pub encode_snoc :
    (log : List Entry) (e : Entry)
    → encode log ++ entry_bytes (e.0) (e.1) ≡ encode (log ++ (e ∷ []))
unfolding encode
encode_snoc log e =
    ap (◌++◌ (encode log)) (sym (append-nil (entry_bytes (e.0) (e.1))))
    ∙ sym (encode-append log (e ∷ []))

index_from_snoc :
    (offset : ℕ) (offsets : Offsets) (log : List Entry) (e : Entry)
    → index_from offset offsets (log ++ (e ∷ []))
      ≡ insert (e.0) (offset + wal_entry_size * length log) (index_from offset offsets log)
unfolding index_from
index_from_snoc offset offsets [] e = ap (λ (n : ℕ). insert (e.0) n offsets) (omega arith)
index_from_snoc offset offsets (x ∷ log) e =
    index_from_snoc (offset + wal_entry_size) (insert (x.0) offset offsets) log e
    ∙ ap
        (λ (n : ℕ).
          insert (e.0) n (index_from (offset + wal_entry_size) (insert (x.0) offset offsets) log))
        (omega arith)

-- Writing a page appends its entry, over whatever stood behind the log.
pub write-Represents :
    (wal : WalFile) (log : List Entry) (rest : List ℕ) (page_id : ℕ) (page : List ℕ)
    → Represents wal log rest
    → IsEntry (page_id, page)
    → Represents (write wal page_id page) (log ++ ((page_id, page) ∷ [])) (drop wal_entry_size rest)
unfolding write
write-Represents wal log rest page_id page r fits = record {
  entries = All-append IsEntry log _ r.entries (fits, tt);
  file_eq =
      ap₂ (λ (n : ℕ) (f : List ℕ). write_at n (entry_bytes page_id page) f)
        (r.len_eq ∙ sym (length-encode log)) r.file_eq
      ∙ write_at-append (encode log) (entry_bytes page_id page) rest
      ∙ sym (
          append_assoc (encode log) (entry_bytes page_id page)
            (drop (length (entry_bytes page_id page)) rest))
      ∙ ap₂ (λ (f : List ℕ) (n : ℕ). f ++ drop n rest) (encode_snoc log (page_id, page))
          (length-entry_bytes page_id page);
  len_eq = omega (arith, r.len_eq, length-append log ((page_id, page) ∷ []));
  offsets_eq =
      ap₂ (insert page_id) r.len_eq r.offsets_eq
      ∙ ap (λ (n : ℕ). insert page_id n (index_from 0 [] log)) (omega arith)
      ∙ sym (index_from_snoc 0 [] log (page_id, page));
}

-- Rolling back to the length that the log had, where its entries fit their types, gives the log that
-- it was then, and nothing behind it.
pub truncate_to-Represents :
    (wal : WalFile) (log more : List Entry) (rest : List ℕ)
    → Represents wal (log ++ more) rest
    → All IsEntry log
    → Represents (truncate_to wal (wal_entry_size * length log)) log []
unfolding truncate_to
truncate_to-Represents wal log more rest r fits =
    let whole : wal.file ≡ encode log ++ (encode more ++ rest) =
      r.file_eq
      ∙ ap (λ (xs : List ℕ). xs ++ rest) (encode-append log more)
      ∙ append_assoc (encode log) (encode more) rest in
    let kept : set_len (wal_entry_size * length log) wal.file ≡ encode log ++ [] =
      ap₂ set_len (sym (length-encode log)) whole
      ∙ set_len-append (encode log) (encode more ++ rest)
      ∙ sym (append-nil (encode log)) in
    rw kept (unfold open_wal in (open_wal-Represents log [] fits (cut (omega arith))))
