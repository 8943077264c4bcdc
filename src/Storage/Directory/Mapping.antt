-- ===== src/Storage/Directory/Mapping.antt =====
-- The chain of directory pages while one entry is written, and `push` where its directory page exists.
use chiffondb.Prelude.{
  ℕ, zero, suc, ◌+◌, ◌/◌, ◌%◌, ◌≡◌, ◌≢◌, inl, inr, refl, sym, ◌∙◌, ap, true, false, Bool-cases,
  ==_iff, Option, none, some, List, length, Result, ok, err, panic, Result-cases, >>=-ok, ◌>>=◌,
  ◌==◌, ltb, arith,
}
use chiffondb.Storage.Page.{page_size}
use chiffondb.Storage.Directory.{
  PageFile, PageDirectory, unmapped, entries_per_dir_page, read_link, write_entry, follow,
  dir_page_pid, extend, ensure_root, ensure_dir_page, set_entry, push,
}
use chiffondb.Storage.Directory.Entries.{read_link-write_entry}

-- The contract of a database file: pages have 4096 bytes, a page that is written is read back, and
-- the others stay.
pub record IsPageFile {F : Type 0} (pages : PageFile F) : Type 0 where
  pub whole :
      (file : F) (pid : ℕ) (page : List ℕ)
      → pages.read_page file pid ≡ ok page
      → length page ≡ page_size
  pub written :
      (file file' : F) (pid : ℕ) (page : List ℕ)
      → pages.write_page file pid page ≡ ok file'
      → pages.read_page file' pid ≡ ok page
  pub elsewhere :
      (file file' : F) (pid other : ℕ) (page : List ℕ)
      → pages.write_page file pid page ≡ ok file'
      → pid ≢ other
      → pages.read_page file' other ≡ pages.read_page file other

module _ {F : Type 0} (pages : PageFile F) where
  -- The link of a page, which is all that `follow` reads.
  link_of : F → ℕ → Result ℕ
  link_of file pid = pages.read_page file pid >>= λ page. ok (read_link page)

  pub LinksSame : F → F → Type 0
  LinksSame file file' = (pid : ℕ) → link_of file' pid ≡ link_of file pid

  go_on : ℕ → F → ℕ → Result (Option ℕ)
  go_on n file next = elim (next == unmapped) [ true ↦ ok none | false ↦ follow pages n file next ]

  follow-suc :
      (n : ℕ) (file : F) (pid : ℕ)
      → follow pages (suc n) file pid ≡ (link_of file pid >>= go_on n file)
  unfolding follow link_of go_on
  follow-suc n file pid = elim (Result-cases (pages.read_page file pid)) [
    | inl (page, e) ↦ rw (follow, link_of, e)
    | inr (inl (e, r)) ↦ rw (follow, link_of, r)
    | inr (inr r) ↦ rw (follow, link_of, r)
  ]

  module _ (file file' : F) (same : LinksSame file file') where
    go_on_same :
        (n : ℕ) (next : ℕ)
        → follow pages n file' next ≡ follow pages n file next
        → go_on n file' next ≡ go_on n file next
    unfolding go_on
    go_on_same n next h = elim (Bool-cases (next == unmapped)) [
      | inl last ↦ rw (go_on, last)
      | inr more ↦ rw (go_on, more) h
    ]

    bind_same :
        (n : ℕ) (m : Result ℕ)
        → ((next : ℕ) → follow pages n file' next ≡ follow pages n file next)
        → (m >>= go_on n file') ≡ (m >>= go_on n file)
    bind_same n (ok next) h = go_on_same n next (h next)
    bind_same n (err e) h = refl
    bind_same n panic h = refl

    pub follow_same : (n pid : ℕ) → follow pages n file' pid ≡ follow pages n file pid
    unfolding LinksSame
    follow_same zero pid = unfold follow in refl
    follow_same (suc n) pid =
        follow-suc n file' pid
        ∙ ap (λ (m : Result ℕ). m >>= go_on n file') (same pid)
        ∙ bind_same n (link_of file pid) (follow_same n)
        ∙ sym (follow-suc n file pid)

  follow_step :
      (n : ℕ) (file : F) (pid : ℕ) (page : List ℕ)
      → pages.read_page file pid ≡ ok page
      → follow pages (suc n) file pid ≡ go_on n file (read_link page)
  unfolding link_of
  follow_step n file pid page e =
      follow-suc n file pid
      ∙ ap (λ (m : Result (List ℕ)). (m >>= λ page'. ok (read_link page')) >>= go_on n file) e

  extend_step :
      (n : ℕ) (file : F) (pid : ℕ) (page : List ℕ)
      → pages.read_page file pid ≡ ok page
      → (read_link page == unmapped) ≡ false
      → extend pages (suc n) file pid ≡ extend pages n file (read_link page)
  unfolding extend
  extend_step n file pid page e more = >>=-ok (pages.read_page file pid) _ page e ∙ (rw more refl)

  -- Where the chain is long enough, `extend` appends nothing.
  extend-follow :
      (n : ℕ) (file : F) (pid q : ℕ)
      → follow pages n file pid ≡ ok (some q)
      → extend pages n file pid ≡ ok (q, file)
  unfolding follow extend go_on
  extend-follow zero file pid q h = let e : pid ≡ q = cc in rw e refl
  extend-follow (suc n) file pid q h = elim (Result-cases (pages.read_page file pid)) [
    | inl (page, e) ↦
        let h' : go_on n file (read_link page) ≡ ok (some q) =
          sym (follow_step n file pid page e) ∙ h in
        elim (Bool-cases (read_link page == unmapped)) [
          | inl last ↦ absurd cc (rw (go_on, last) at h')
          | inr more ↦
              extend_step n file pid page e more
              ∙ extend-follow n file (read_link page) q (rw (go_on, more) at h')
        ]
    | inr (inl (e, r)) ↦ absurd cc (rw (follow, r) at h)
    | inr (inr r) ↦ absurd cc (rw (follow, r) at h)
  ]

  module _ (laws : IsPageFile pages) (file file' : F) (pid slot physical : ℕ) (page : List ℕ) where
    pub LinksSame-write_entry :
        pages.read_page file pid ≡ ok page
        → pages.write_page file pid (write_entry page slot physical) ≡ ok file'
        → LinksSame file file'
    unfolding LinksSame link_of
    LinksSame-write_entry r w other = elim (Bool-cases (pid == other)) [
      | inl yes_same ↦
          let e : pid ≡ other = (==_iff pid other).0 yes_same in
          rw (← e) (
            rw (laws.written file file' pid _ w, r)
              (ap ok (read_link-write_entry page slot physical)))
      | inr differs ↦
          rw (laws.elsewhere file file' pid other _ w (ground (arith, ==_iff pid other))) refl
    ]

  module _ (dir : PageDirectory) (file : F) (index pid : ℕ)
      (there : dir_page_pid pages dir file index ≡ ok (some pid)) where
    pub root_there : (dir.root == unmapped) ≡ false
    unfolding dir_page_pid
    root_there = elim (Bool-cases (dir.root == unmapped)) [
      | inl gone ↦ absurd cc (rw gone at there)
      | inr here ↦ here
    ]

    chain_there : follow pages index file dir.root ≡ ok (some pid)
    unfolding dir_page_pid
    chain_there = rw root_there at there

    ensure_dir_page-there : ensure_dir_page pages dir file index ≡ ok (pid, dir, file)
    unfolding ensure_dir_page ensure_root
    ensure_dir_page-there =
        >>=-ok (ensure_root pages dir file) _ (dir, file) (rw root_there refl)
        ∙ >>=-ok (extend pages index file dir.root) _ (pid, file)
            (extend-follow index file dir.root pid chain_there)

  module _ (dir : PageDirectory) (file file' : F) (physical pid : ℕ) (page : List ℕ)
      (there : dir_page_pid pages dir file (dir.len / entries_per_dir_page) ≡ ok (some pid))
      (read : pages.read_page file pid ≡ ok page)
      (write : pages.write_page file pid
          (write_entry page (dir.len % entries_per_dir_page) physical)
        ≡ ok file') where
    set_entry-there : set_entry pages dir file dir.len physical ≡ ok (dir, file')
    unfolding set_entry
    set_entry-there =
        let no : ltb dir.len dir.len ≡ false = ground arith in
        rw no (
          >>=-ok (ensure_dir_page pages dir file (dir.len / entries_per_dir_page)) _
            (pid, dir, file)
            (ensure_dir_page-there dir file (dir.len / entries_per_dir_page) pid there)
          ∙ >>=-ok (pages.read_page file pid) _ page read
          ∙ >>=-ok (pages.write_page file pid _) _ file' write)

    pub push-there :
        physical ≢ unmapped
        → push pages dir file physical ≡ ok (dir.len, record dir { len = dir.len + 1 }, file')
    unfolding push
    push-there real =
        let no : (physical == unmapped) ≡ false = ground (arith, ==_iff physical unmapped) in
        rw no (>>=-ok (set_entry pages dir file dir.len physical) _ (dir, file') set_entry-there)
