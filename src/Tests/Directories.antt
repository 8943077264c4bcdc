-- ===== src/Tests/Directories.antt =====
-- storage/page_directory.rs over a file that is a function from page numbers to pages.
use chiffondb.Prelude.{
  ℕ, zero, suc, ◌<◌, ◌≡◌, inl, inr, refl, sym, ◌∙◌, Bool, true, false, Bool-cases, ==_iff, none,
  some, List, length, replicate, length-replicate, >>=-ok, ok, err, io, ◌==◌, if◌then◌else◌, arith,
}
use chiffondb.Bytes.Slices.{length-patch, patch, slice}
use chiffondb.Bytes.Words.{le_bytes_u32, from_le_bytes}
use chiffondb.Storage.Directory
use chiffondb.Storage.Directory.{
  PageFile, PageDirectory, dir_page_pid, push, resolve, write_link, write_entry, read_link,
}
use chiffondb.Storage.Directory.Mapping.{IsPageFile}
use chiffondb.Storage.Directory.Pushed

abbrev pub Memory : Type 0
Memory = ℕ → List ℕ

pub is_whole : List ℕ → Bool
is_whole page = length page == 4096

pub is_whole-of_length : (page : List ℕ) → length page ≡ 4096 → is_whole page ≡ true
unfolding is_whole
is_whole-of_length page size = (==_iff (length page) 4096).1 size

pub update : Memory → ℕ → List ℕ → Memory
update file pid page q = if pid == q then page else file q

abbrev pub memory : PageFile Memory
memory = record {
  read_page = λ file pid. if is_whole (file pid) then ok (file pid) else err io;
  write_page = λ file pid page. if is_whole page then ok (update file pid page) else err io;
  append_page = λ file page. err io;
}

memory_whole :
    (page page' : List ℕ)
    → (if is_whole page then ok page else err io) ≡ ok page'
    → length page' ≡ 4096
unfolding is_whole
memory_whole page page' h = elim (Bool-cases (length page == 4096)) [
  | inl fits ↦
      let e : page ≡ page' = cc (rw fits at h) in rw (← e) ((==_iff (length page) 4096).0 fits)
  | inr other ↦ absurd cc (rw other at h)
]

written_page :
    (file file' : Memory) (pid : ℕ) (page : List ℕ)
    → (if is_whole page then ok (update file pid page) else err io) ≡ ok file'
    → (is_whole page ≡ true) × (update file pid page ≡ file')
written_page file file' pid page h = elim (Bool-cases (is_whole page)) [
  | inl fits ↦ (fits, cc (rw fits at h))
  | inr other ↦ absurd cc (rw other at h)
]

pub memory-IsPageFile : IsPageFile memory
unfolding update
memory-IsPageFile = record {
  whole = λ file pid page h. memory_whole (file pid) page h;
  written = λ file file' pid page h.
      let (fits, e) = written_page file file' pid page h in
      rw (← e) (let same : (pid == pid) ≡ true = (==_iff pid pid).1 refl in rw same (rw fits refl));
  elsewhere = λ file file' pid other page h ne.
      let (fits, e) = written_page file file' pid page h in
      rw (← e) (
        let differs : (pid == other) ≡ false = ground (arith, ==_iff pid other) in rw differs refl);
}

abbrev pub leaf : List ℕ
leaf = write_link (replicate 4096 0) 4294967295

abbrev file : Memory
file q = leaf

abbrev dir : PageDirectory
dir = record { root = 0; len = 1 }

pub length-leaf : length leaf ≡ 4096
unfolding write_link
length-leaf = length-patch 0 _ (replicate 4096 0) ∙ length-replicate 4096 0

pub leaf_fits : is_whole leaf ≡ true
unfolding is_whole
leaf_fits = (==_iff (length leaf) 4096).1 length-leaf

read_leaf : (if is_whole leaf then ok leaf else err io) ≡ ok leaf
read_leaf = rw leaf_fits refl

pub link-leaf : read_link leaf ≡ 4294967295
unfolding read_link write_link patch slice replicate le_bytes_u32 from_le_bytes
link-leaf = refl

one_page : (n : ℕ) → Directory.follow memory (suc n) file 0 ≡ ok none
unfolding Directory.follow
one_page n = >>=-ok (memory.read_page file 0) _ leaf read_leaf ∙ (rw link-leaf refl)

first : dir_page_pid memory dir file 0 ≡ ok (some 0)
unfolding dir_page_pid Directory.follow
first = refl

acyclic :
    (i j q : ℕ)
    → dir_page_pid memory dir file i ≡ ok (some q)
    → dir_page_pid memory dir file j ≡ ok (some q)
    → i ≡ j
unfolding dir_page_pid
acyclic zero zero q h k = refl
acyclic zero (suc j) q h k = absurd cc (sym (one_page j) ∙ k)
acyclic (suc i) j q h k = absurd cc (sym (one_page i) ∙ h)

entry : List ℕ
entry = write_entry leaf 1 7

entry_fits : is_whole entry ≡ true
unfolding is_whole entry write_entry
entry_fits = (==_iff (length entry) 4096).1 (length-patch 8 (le_bytes_u32 7) leaf ∙ length-leaf)

push_example :
    (dir' : PageDirectory) × (push memory dir file 7 ≡ ok (1, dir', update file 0 entry))
    × (dir'.len ≡ 2)
    × (resolve memory dir' (update file 0 entry) 1 ≡ ok (some 7))
    × ((j : ℕ) → j < 1 → resolve memory dir' (update file 0 entry) j ≡ resolve memory dir file j)
unfolding entry
push_example =
    Pushed.push_effect memory memory-IsPageFile dir file (update file 0 entry) 7 0 leaf first
      acyclic read_leaf (rw entry_fits refl) (omega arith) (omega arith)
