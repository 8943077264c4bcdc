-- ===== src/Storage/Directory/Kept.antt =====
-- `resolve` where the pages of the directory stay as they are.
use chiffondb.Prelude.{
  ℕ, zero, suc, ◌/◌, ◌≡◌, refl, sym, ◌∙◌, inl, inr, true, false, Bool-cases, none, some, List,
  Result-cases, >>=-ok, ok, ◌==◌, leb,
}
use chiffondb.Storage.Directory.{
  PageFile, PageDirectory, unmapped, entries_per_dir_page, read_link, follow, dir_page_pid, resolve,
}

module _ {F : Type 0} (pages : PageFile F) (file file' : F) where
  -- The pages that the chain from `pid` on reaches read the same in both files.
  abbrev IsKept : ℕ → Type 0
  IsKept pid =
      (i q : ℕ)
      → follow pages i file pid ≡ ok (some q)
      → pages.read_page file' q ≡ pages.read_page file q

  follow_last :
      (f : F) (n pid : ℕ) (page : List ℕ)
      → pages.read_page f pid ≡ ok page
      → (read_link page == unmapped) ≡ true
      → follow pages (suc n) f pid ≡ ok none
  unfolding follow
  follow_last f n pid page e last = >>=-ok (pages.read_page f pid) _ page e ∙ (rw last refl)

  follow_more :
      (f : F) (n pid : ℕ) (page : List ℕ)
      → pages.read_page f pid ≡ ok page
      → (read_link page == unmapped) ≡ false
      → follow pages (suc n) f pid ≡ follow pages n f (read_link page)
  unfolding follow
  follow_more f n pid page e more = >>=-ok (pages.read_page f pid) _ page e ∙ (rw more refl)

  follow_kept : (n pid : ℕ) → IsKept pid → follow pages n file' pid ≡ follow pages n file pid
  unfolding follow
  follow_kept zero pid kept = refl
  follow_kept (suc n) pid kept = elim (Result-cases (pages.read_page file pid)) [
    | inl (page, e) ↦
        let e' = kept 0 pid refl ∙ e in
        elim (Bool-cases (read_link page == unmapped)) [
          | inl last ↦
              follow_last file' n pid page e' last ∙ sym (follow_last file n pid page e last)
          | inr more ↦
              let deeper : IsKept (read_link page) =
                λ i q h. kept (suc i) q (follow_more file i pid page e more ∙ h) in
              follow_more file' n pid page e' more
              ∙ follow_kept n (read_link page) deeper
              ∙ sym (follow_more file n pid page e more)
        ]
    | inr (inl (reason, e)) ↦ let e' = kept 0 pid refl ∙ e in rw (e, e', follow) refl
    | inr (inr e) ↦ let e' = kept 0 pid refl ∙ e in rw (e, e', follow) refl
  ]

  pub dir_page_pid_kept :
      (dir : PageDirectory) (index : ℕ)
      → ((i q : ℕ)
          → dir_page_pid pages dir file i ≡ ok (some q)
          → pages.read_page file' q ≡ pages.read_page file q)
      → dir_page_pid pages dir file' index ≡ dir_page_pid pages dir file index
  unfolding dir_page_pid
  dir_page_pid_kept dir index kept = elim (Bool-cases (dir.root == unmapped)) [
    | inl empty ↦ rw (empty, dir_page_pid) refl
    | inr there ↦
        rw (there, dir_page_pid)
          (follow_kept index dir.root (λ i q h. kept i q (rw (there, dir_page_pid) h)))
  ]

  -- Where every page of a directory reads the same in another file, each logical page resolves to the
  -- same page there.
  pub resolve_kept :
      (dir : PageDirectory) (logical : ℕ)
      → ((i q : ℕ)
          → dir_page_pid pages dir file i ≡ ok (some q)
          → pages.read_page file' q ≡ pages.read_page file q)
      → resolve pages dir file' logical ≡ resolve pages dir file logical
  unfolding resolve
  resolve_kept dir logical kept = elim (Bool-cases (leb dir.len logical)) [
    | inl out ↦ rw (out, resolve) refl
    | inr within ↦
        let index = logical / entries_per_dir_page in
        let same = dir_page_pid_kept dir index kept in
        elim (Result-cases (dir_page_pid pages dir file index)) [
          | inl (none, e) ↦ let e' = same ∙ e in rw (within, resolve) (rw (e', e) refl)
          | inl (some q, e) ↦
              let e' = same ∙ e in rw (within, resolve) (rw (e', e) (rw (kept index q e) refl))
          | inr (inl (reason, e)) ↦ let e' = same ∙ e in rw (within, resolve) (rw (e', e) refl)
          | inr (inr e) ↦ let e' = same ∙ e in rw (within, resolve) (rw (e', e) refl)
        ]
  ]
