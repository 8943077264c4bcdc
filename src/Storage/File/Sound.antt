-- ===== src/Storage/File/Sound.antt =====
-- The pages of nodes and edges that the directories of a database file map: the invariant that keeps
-- them apart, and that it stays where the directories and their pages do.
use chiffondb.Prelude.{
  ℕ, ◌≡◌, ◌≢◌, refl, sym, ap, ◌∙◌, Option, some, inl, inr, Result, Result-cases, ok, List, ◌>>=◌,
}
use chiffondb.Bytes.Words.{IsBytes}
use chiffondb.Storage.Directory.{PageDirectory, dir_page_pid, resolve}
use chiffondb.Storage.Directory.Kept.{dir_page_pid_kept, resolve_kept}
use chiffondb.Storage.Topology.{TopologyKind}
use chiffondb.Storage.File.{
  Backend, DatabaseFile, read_page, page_file, topology_dir, resolve_topology_page,
  read_topology_page, found_or_corrupted,
}

module _ {B : Type 0} (ops : Backend B) where
  -- A page that the directory of a kind is made of.
  abbrev pub IsDirPage : DatabaseFile B → TopologyKind → ℕ → ℕ → Type 0
  IsDirPage file kind i q =
      dir_page_pid (page_file ops) (topology_dir ops kind file) file i ≡ ok (some q)

  -- No mapped page and no directory page is the header's page 0, no mapped page is a directory page,
  -- two logical pages are never the same page, and the pages but the header's hold bytes.
  pub record IsSound (file : DatabaseFile B) : Type 0 where
    pub in_bytes :
        (pid : ℕ) (page : List ℕ) → 0 ≢ pid → read_page ops file pid ≡ ok page → IsBytes page
    pub dir_real : (kind : TopologyKind) (i q : ℕ) → IsDirPage file kind i q → 0 ≢ q
    pub page_real :
        (kind : TopologyKind) (logical pid : ℕ)
        → resolve_topology_page ops kind file logical ≡ ok pid
        → 0 ≢ pid
    pub apart :
        (kind other : TopologyKind) (logical i pid q : ℕ)
        → resolve_topology_page ops kind file logical ≡ ok pid
        → IsDirPage file other i q
        → pid ≢ q
    pub injective :
        (kind other : TopologyKind) (logical place pid : ℕ)
        → resolve_topology_page ops kind file logical ≡ ok pid
        → resolve_topology_page ops other file place ≡ ok pid
        → (kind ≡ other) × (logical ≡ place)

  module _ (file file' : DatabaseFile B)
      (dirs : (kind : TopologyKind) → topology_dir ops kind file' ≡ topology_dir ops kind file)
      (kept : (kind : TopologyKind) (i q : ℕ)
        → IsDirPage file kind i q
        → read_page ops file' q ≡ read_page ops file q) where
    dir_page_same :
        (kind : TopologyKind) (i : ℕ)
        → dir_page_pid (page_file ops) (topology_dir ops kind file') file' i
          ≡ dir_page_pid (page_file ops) (topology_dir ops kind file) file i
    dir_page_same kind i =
        ap (λ (d : PageDirectory). dir_page_pid (page_file ops) d file' i) (dirs kind)
        ∙ dir_page_pid_kept (page_file ops) file file' (topology_dir ops kind file) i (kept kind)

    -- Every logical page resolves to the same page.
    pub resolve_same :
        (kind : TopologyKind) (logical : ℕ)
        → resolve_topology_page ops kind file' logical ≡ resolve_topology_page ops kind file logical
    unfolding resolve_topology_page
    resolve_same kind logical =
        ap (λ (m : Result (Option ℕ)). m >>= found_or_corrupted logical)
          (ap (λ (d : PageDirectory). resolve (page_file ops) d file' logical) (dirs kind)
            ∙ resolve_kept (page_file ops) file file' (topology_dir ops kind file) logical
                (kept kind))

    -- The mapping is as before, so it stays sound where the pages still hold bytes.
    pub IsSound-kept :
        IsSound file
        → ((pid : ℕ) (page : List ℕ) → 0 ≢ pid → read_page ops file' pid ≡ ok page → IsBytes page)
        → IsSound file'
    IsSound-kept s bytes = record {
      in_bytes = bytes;
      dir_real = λ kind i q h. s.dir_real kind i q (sym (dir_page_same kind i) ∙ h);
      page_real =
          λ kind logical pid h. s.page_real kind logical pid (sym (resolve_same kind logical) ∙ h);
      apart = λ kind other logical i pid q h d.
          s.apart kind other logical i pid q (sym (resolve_same kind logical) ∙ h)
            (sym (dir_page_same other i) ∙ d);
      injective = λ kind other logical place pid h h'.
          s.injective kind other logical place pid (sym (resolve_same kind logical) ∙ h)
            (sym (resolve_same other place) ∙ h');
    }

    -- A logical page whose page reads the same reads the same.
    pub read_same :
        (kind : TopologyKind) (logical : ℕ)
        → ((pid : ℕ)
            → resolve_topology_page ops kind file logical ≡ ok pid
            → read_page ops file' pid ≡ read_page ops file pid)
        → read_topology_page ops kind logical file' ≡ read_topology_page ops kind logical file
    unfolding read_topology_page
    read_same kind logical same =
        let r = resolve_same kind logical in
        elim (Result-cases (resolve_topology_page ops kind file logical)) [
          | inl (pid, e) ↦ rw (r ∙ e, e) (same pid e)
          | inr (inl (reason, e)) ↦ rw (r ∙ e, e) refl
          | inr (inr e) ↦ rw (r ∙ e, e) refl
        ]
