-- ===== src/Storage/Directory/Pushed.antt =====
-- What a directory maps after `push`.
use chiffondb.Prelude.{
  ℕ, ◌+◌, ◌/◌, ◌%◌, ◌<◌, ◌≡◌, ◌≢◌, inl, inr, refl, sym, ◌∙◌, ap, false, Bool-cases, ==_iff, Option,
  none, some, List, Result, ok, err, panic, >>=-ok, ◌>>=◌, ◌==◌, leb, arith,
}
use chiffondb.Bytes.Words.{IsU32}
use chiffondb.Storage.Directory.{
  PageFile, PageDirectory, unmapped, entries_per_dir_page, read_entry, write_entry, dir_page_pid,
  push, mapped, resolve,
}
use chiffondb.Storage.Directory.Entries.{read_entry-write_entry_self, read_entry-write_entry_ne}
use chiffondb.Storage.Directory.Mapping.{
  IsPageFile, follow_same, LinksSame-write_entry, root_there, push-there,
}

module _ {F : Type 0} (pages : PageFile F) where
  entry_at : F → ℕ → Option ℕ → Result (Option ℕ)
  entry_at file slot none = ok none
  entry_at file slot (some pid) =
      pages.read_page file pid >>= λ page. ok (mapped (read_entry page slot))

  resolve_lem :
      (dir : PageDirectory) (file : F) (logical : ℕ)
      → leb dir.len logical ≡ false
      → resolve pages dir file logical ≡ (
          dir_page_pid pages dir file (logical / entries_per_dir_page)
          >>= entry_at file (logical % entries_per_dir_page))
  unfolding resolve entry_at
  resolve_lem dir file logical within = rw within refl

  bind_ext :
      (m : Result (Option ℕ)) (f g : Option ℕ → Result (Option ℕ))
      → ((a : Option ℕ) → m ≡ ok a → f a ≡ g a)
      → (m >>= f) ≡ (m >>= g)
  bind_ext (ok a) f g h = h a refl
  bind_ext (err e) f g h = refl
  bind_ext panic f g h = refl

  module _ (laws : IsPageFile pages) (dir : PageDirectory) (file file' : F) (physical pid : ℕ)
      (page : List ℕ)
      (there : dir_page_pid pages dir file (dir.len / entries_per_dir_page) ≡ ok (some pid))
      (acyclic : (i j q : ℕ)
        → dir_page_pid pages dir file i ≡ ok (some q)
        → dir_page_pid pages dir file j ≡ ok (some q)
        → i ≡ j)
      (read : pages.read_page file pid ≡ ok page)
      (write : pages.write_page file pid
          (write_entry page (dir.len % entries_per_dir_page) physical)
        ≡ ok file')
      (fits : IsU32 physical) (real : physical ≢ unmapped) where
    longer : PageDirectory
    longer = record dir { len = dir.len + 1 }

    pid_same :
        (index : ℕ) → dir_page_pid pages longer file' index ≡ dir_page_pid pages dir file index
    unfolding dir_page_pid longer
    pid_same index = rw (root_there pages dir file (dir.len / entries_per_dir_page) pid there) (
        follow_same pages file file'
          (LinksSame-write_entry pages laws file file' pid (dir.len % entries_per_dir_page) physical
            page read write)
          index dir.root)

    mapped_real : mapped physical ≡ some physical
    unfolding mapped
    mapped_real = ground (arith, ==_iff physical unmapped)

    resolve_new : resolve pages longer file' dir.len ≡ ok (some physical)
    unfolding entry_at longer
    resolve_new =
        resolve_lem longer file' dir.len (ground arith)
        ∙ >>=-ok (dir_page_pid pages longer file' (dir.len / entries_per_dir_page)) _ (some pid)
            (pid_same (dir.len / entries_per_dir_page) ∙ there)
        ∙ >>=-ok (pages.read_page file' pid) _ _ (laws.written file file' pid _ write)
        ∙ ap ok (
            ap mapped (
              read_entry-write_entry_self page (dir.len % entries_per_dir_page) physical
                (laws.whole file pid page read) (omega arith) fits)
            ∙ mapped_real)

    entry_at_old :
        (j q : ℕ)
        → j < dir.len
        → dir_page_pid pages dir file (j / entries_per_dir_page) ≡ ok (some q)
        → entry_at file' (j % entries_per_dir_page) (some q)
          ≡ entry_at file (j % entries_per_dir_page) (some q)
    unfolding entry_at
    entry_at_old j q lt at_q = elim (Bool-cases (pid == q)) [
      | inl yes_same ↦
          let e : pid ≡ q = (==_iff pid q).0 yes_same in
          let index : j / entries_per_dir_page ≡ dir.len / entries_per_dir_page =
            acyclic _ _ q at_q (there ∙ ap (λ (x : ℕ). ok (some x)) e) in
          rw (← e) (
            >>=-ok (pages.read_page file' pid) _ _ (laws.written file file' pid _ write)
            ∙ ap (λ (x : ℕ). ok (mapped x))
                (read_entry-write_entry_ne page (dir.len % entries_per_dir_page)
                  (j % entries_per_dir_page) physical (omega arith))
            ∙ sym (>>=-ok (pages.read_page file pid) _ page read))
      | inr differs ↦
          ap
            (λ (m : Result (List ℕ)).
              m >>= λ page'. ok (mapped (read_entry page' (j % entries_per_dir_page))))
            (laws.elsewhere file file' pid q _ write (ground (arith, ==_iff pid q)))
    ]

    entry_at_same :
        (j : ℕ) (found : Option ℕ)
        → j < dir.len
        → dir_page_pid pages dir file (j / entries_per_dir_page) ≡ ok found
        → entry_at file' (j % entries_per_dir_page) found
          ≡ entry_at file (j % entries_per_dir_page) found
    entry_at_same j none lt h = unfold entry_at in refl
    entry_at_same j (some q) lt h = entry_at_old j q lt h

    resolve_old : (j : ℕ) → j < dir.len → resolve pages longer file' j ≡ resolve pages dir file j
    unfolding longer
    resolve_old j lt =
        resolve_lem longer file' j (ground arith)
        ∙ ap (λ (m : Result (Option ℕ)). m >>= entry_at file' (j % entries_per_dir_page))
            (pid_same (j / entries_per_dir_page))
        ∙ bind_ext (dir_page_pid pages dir file (j / entries_per_dir_page)) _ _
            (λ found h. entry_at_same j found lt h)
        ∙ sym (resolve_lem dir file j (ground arith))

  -- Where the directory page of the next entry exists and no page stands twice in the chain, `push`
  -- of a page number other than the sentinel succeeds if the file takes the write: it returns the old
  -- length, the new entry resolves to the page, and every older entry resolves as before.
  pub push_effect :
      (laws : IsPageFile pages) (dir : PageDirectory) (file file' : F) (physical pid : ℕ)
      (page : List ℕ)
      → dir_page_pid pages dir file (dir.len / entries_per_dir_page) ≡ ok (some pid)
      → ((i j q : ℕ)
          → dir_page_pid pages dir file i ≡ ok (some q)
          → dir_page_pid pages dir file j ≡ ok (some q)
          → i ≡ j)
      → pages.read_page file pid ≡ ok page
      → pages.write_page file pid (write_entry page (dir.len % entries_per_dir_page) physical)
        ≡ ok file'
      → IsU32 physical
      → physical ≢ unmapped
      → (dir' : PageDirectory) × (push pages dir file physical ≡ ok (dir.len, dir', file'))
        × (dir'.len ≡ dir.len + 1)
        × (resolve pages dir' file' dir.len ≡ ok (some physical))
        × ((j : ℕ) → j < dir.len → resolve pages dir' file' j ≡ resolve pages dir file j)
  unfolding longer
  push_effect laws dir file file' physical pid page there acyclic read write fits real = (
    record dir { len = dir.len + 1 },
    push-there pages dir file file' physical pid page there read write real,
    refl,
    resolve_new laws dir file file' physical pid page there acyclic read write fits real,
    resolve_old laws dir file file' physical pid page there acyclic read write fits real,
  )
