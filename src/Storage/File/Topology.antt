-- ===== src/Storage/File/Topology.antt =====
-- The database file under the contract of the topology store: its pages of nodes and edges are those
-- that its directories map.
use chiffondb.Prelude.{
  ℕ, ◌+◌, ◌*◌, ◌%◌, ltb, ◌≡◌, ◌≢◌, ◌⊎◌, inl, inr, refl, sym, ap, ◌∙◌, Bool-cases, ok, List, length,
  >>=-ok, ◌==◌, ==_iff,
}
use chiffondb.Bytes.Slices.{patch}
use chiffondb.Bytes.Words.{IsBytes}
use chiffondb.Storage.Page.{page_size}
use chiffondb.Storage.Directory.Mapping.{IsPageFile}
use chiffondb.Storage.Topology.{TopologyKind, node_kind, edge_kind}
use chiffondb.Storage.Topology.Records.{>>=_inverse}
use chiffondb.Storage.Topology.Contract.{IsTopologyFile, IsWritable}
use chiffondb.Storage.Header.{FileHeader}
use chiffondb.Storage.File.{
  Backend, DatabaseFile, read_page, write_page, write_header, page_file, topology_dir,
  topology_page_count, resolve_topology_page, read_topology_page, write_topology_page,
  set_topology_first_free_hint, topology_file, memory_read, memory_write, memory_backend,
}
use chiffondb.Storage.File.Memory.{memory-IsPageFile}
use chiffondb.Storage.File.FreeList.{write_page_header}
use chiffondb.Storage.File.Sound.{IsSound, IsDirPage, resolve_same, IsSound-kept, read_same}

module _ {B : Type 0} (ops : Backend B) (laws : IsPageFile (page_file ops)) where
  -- The pages still hold bytes where one page is written with bytes.
  bytes_written :
      (file file' : DatabaseFile B) (pid : ℕ) (page : List ℕ)
      → IsSound ops file
      → (0 ≢ pid → IsBytes page)
      → write_page ops file pid page ≡ ok file'
      → (q : ℕ) (other : List ℕ) → 0 ≢ q
      → read_page ops file' q ≡ ok other
      → IsBytes other
  bytes_written file file' pid page s b w q other real r = elim (Bool-cases (pid == q)) [
    | inl same ↦
        let e = (==_iff pid q).0 same in
        let at : read_page ops file' q ≡ ok page =
          ap (read_page ops file') (sym e) ∙ laws.written file file' pid page w in
        let e' : page ≡ other = cc in rw (← e') (b (λ z. real (z ∙ e)))
    | inr differs ↦
        let ne : pid ≢ q = λ e. absurd cc (sym differs ∙ (==_iff pid q).1 e) in
        s.in_bytes q other real (sym (laws.elsewhere file file' pid q page w ne) ∙ r)
  ]

  -- The page that a logical page is, and the write to it.
  write_inverse :
      (kind : TopologyKind) (logical : ℕ) (page : List ℕ) (file file' : DatabaseFile B)
      → write_topology_page ops kind logical page file ≡ ok file'
      → (pid : ℕ) × (resolve_topology_page ops kind file logical ≡ ok pid)
        × (write_page ops file pid page ≡ ok file')
  unfolding write_topology_page
  write_inverse kind logical page file file' h =
      >>=_inverse (resolve_topology_page ops kind file logical) _ file' h

  read_inverse :
      (kind : TopologyKind) (logical : ℕ) (page : List ℕ) (file : DatabaseFile B)
      → read_topology_page ops kind logical file ≡ ok page
      → (pid : ℕ) × (resolve_topology_page ops kind file logical ≡ ok pid)
        × (read_page ops file pid ≡ ok page)
  unfolding read_topology_page
  read_inverse kind logical page file h =
      >>=_inverse (resolve_topology_page ops kind file logical) _ page h

  dirs_of_header :
      (file file' : DatabaseFile B)
      → file'.header ≡ file.header
      → (k : TopologyKind) → topology_dir ops k file' ≡ topology_dir ops k file
  unfolding topology_dir
  dirs_of_header file file' e node_kind = rw e refl
  dirs_of_header file file' e edge_kind = rw e refl

  counts_of_header :
      (file file' : DatabaseFile B)
      → file'.header ≡ file.header
      → (k : TopologyKind) → topology_page_count ops k file' ≡ topology_page_count ops k file
  unfolding topology_page_count
  counts_of_header file file' e node_kind = rw e refl
  counts_of_header file file' e edge_kind = rw e refl

  read_of :
      (file : DatabaseFile B) (kind : TopologyKind) (logical pid : ℕ) (page : List ℕ)
      → resolve_topology_page ops kind file logical ≡ ok pid
      → read_page ops file pid ≡ ok page
      → read_topology_page ops kind logical file ≡ ok page
  unfolding read_topology_page
  read_of file kind logical pid page r p =
      >>=-ok (resolve_topology_page ops kind file logical) _ pid r ∙ p

  two_pages :
      (file : DatabaseFile B)
      → IsSound ops file
      → (kind other : TopologyKind) (logical place pid q : ℕ)
      → resolve_topology_page ops kind file logical ≡ ok pid
      → resolve_topology_page ops other file place ≡ ok q
      → (kind ≢ other) ⊎ (logical ≢ place)
      → pid ≢ q
  two_pages file s kind other logical place pid q r r' ne e =
      let (k, l) = s.injective kind other logical place pid r (r' ∙ ap ok (sym e)) in
      elim ne [ inl h ↦ h k | inr h ↦ h l ]

  module _ (file file' : DatabaseFile B) (pid : ℕ) (page : List ℕ) (s : IsSound ops file)
      (kind : TopologyKind) (logical : ℕ) (r : resolve_topology_page ops kind file logical ≡ ok pid)
      (w : write_page ops file pid page ≡ ok file') where
    dirs_written : (k : TopologyKind) → topology_dir ops k file' ≡ topology_dir ops k file
    dirs_written = dirs_of_header file file' (write_page_header ops laws file file' pid page w)

    dir_pages_written :
        (k : TopologyKind) (i q : ℕ)
        → IsDirPage ops file k i q
        → read_page ops file' q ≡ read_page ops file q
    dir_pages_written k i q d =
        laws.elsewhere file file' pid q page w (s.apart kind k logical i pid q r d)

  abbrev with_header : FileHeader → DatabaseFile B → DatabaseFile B
  with_header header file = record file { header = header }

  -- A header write with the directories and the page counts as they were.
  abbrev IsHintWrite : DatabaseFile B → DatabaseFile B → FileHeader → Type 0
  IsHintWrite file file' header =
      (write_header ops (with_header header file) ≡ ok file')
      × ((k : TopologyKind)
          → topology_dir ops k (with_header header file) ≡ topology_dir ops k file)
      × ((k : TopologyKind)
          → topology_page_count ops k (with_header header file) ≡ topology_page_count ops k file)

  -- The header with a hint that is set.
  abbrev hinted : TopologyKind → ℕ → FileHeader → FileHeader
  hinted node_kind hint header = record header { node_first_free_page = hint % 4294967296 }
  hinted edge_kind hint header = record header { edge_first_free_page = hint % 4294967296 }

  hinted_dirs :
      (file : DatabaseFile B) (kind : TopologyKind) (hint : ℕ) (k : TopologyKind)
      → topology_dir ops k (with_header (hinted kind hint file.header) file)
        ≡ topology_dir ops k file
  unfolding topology_dir
  hinted_dirs file node_kind hint node_kind = refl
  hinted_dirs file node_kind hint edge_kind = refl
  hinted_dirs file edge_kind hint node_kind = refl
  hinted_dirs file edge_kind hint edge_kind = refl

  hinted_counts :
      (file : DatabaseFile B) (kind : TopologyKind) (hint : ℕ) (k : TopologyKind)
      → topology_page_count ops k (with_header (hinted kind hint file.header) file)
        ≡ topology_page_count ops k file
  unfolding topology_page_count
  hinted_counts file node_kind hint node_kind = refl
  hinted_counts file node_kind hint edge_kind = refl
  hinted_counts file edge_kind hint node_kind = refl
  hinted_counts file edge_kind hint edge_kind = refl

  hint_write :
      (file file' : DatabaseFile B) (kind : TopologyKind) (hint : ℕ)
      → set_topology_first_free_hint ops kind hint file ≡ ok file'
      → IsHintWrite file file' (hinted kind hint file.header)
  unfolding set_topology_first_free_hint
  hint_write file file' node_kind hint h =
      (h, hinted_dirs file node_kind hint, hinted_counts file node_kind hint)
  hint_write file file' edge_kind hint h =
      (h, hinted_dirs file edge_kind hint, hinted_counts file edge_kind hint)

  module _ (file file' : DatabaseFile B) (header : FileHeader)
      (changes : IsHintWrite file file' header) where
    hint_same :
        ((k : TopologyKind) → topology_dir ops k file' ≡ topology_dir ops k file)
        × ((k : TopologyKind) → topology_page_count ops k file' ≡ topology_page_count ops k file)
    unfolding write_header
    hint_same =
        let e = write_page_header ops laws (with_header header file) file' 0 _ (changes.0) in
        (
          λ k. dirs_of_header (with_header header file) file' e k ∙ changes.1 k,
          λ k. counts_of_header (with_header header file) file' e k ∙ changes.2 k,
        )

    hint_reads : (q : ℕ) → 0 ≢ q → read_page ops file' q ≡ read_page ops file q
    unfolding write_header read_page
    hint_reads q real = laws.elsewhere (with_header header file) file' 0 q _ (changes.0) real

    hint-IsSound : IsSound ops file → IsSound ops file'
    hint-IsSound s =
        IsSound-kept ops file file' (hint_same.0) (λ k i q d. hint_reads q (s.dir_real k i q d)) s
          (λ q page real r. s.in_bytes q page real (sym (hint_reads q real) ∙ r))

    hint_pages_same :
        IsSound ops file
        → (kind : TopologyKind) (place : ℕ)
        → read_topology_page ops kind place file' ≡ read_topology_page ops kind place file
    hint_pages_same s kind place =
        read_same ops file file' (hint_same.0) (λ k i q d. hint_reads q (s.dir_real k i q d)) kind
          place (λ pid r. hint_reads pid (s.page_real kind place pid r))

  -- Over a backend whose reads and writes keep the contract of pages, the database file keeps the
  -- contract of the topology store in the sound files.
  topology_contract : IsTopologyFile (topology_file ops) (IsSound ops)
  topology_contract = record {
    whole = λ kind logical file page s h.
        let (pid, r, p) = read_inverse kind logical page file h in
        (laws.whole file pid page p, s.in_bytes pid page (s.page_real kind logical pid r) p);
    write_valid = λ kind logical page file file' s b h.
        let (pid, r, w) = write_inverse kind logical page file file' h in
        IsSound-kept ops file file' (dirs_written file file' pid page s kind logical r w)
          (dir_pages_written file file' pid page s kind logical r w) s
          (bytes_written file file' pid page s (λ real. b) w);
    page_written = λ kind logical page file file' s h.
        let (pid, r, w) = write_inverse kind logical page file file' h in
        read_of file' kind logical pid page
          (resolve_same ops file file' (dirs_written file file' pid page s kind logical r w)
              (dir_pages_written file file' pid page s kind logical r w) kind logical
            ∙ r)
          (laws.written file file' pid page w);
    page_elsewhere = λ kind other logical place page file file' s h ne.
        let (pid, r, w) = write_inverse kind logical page file file' h in
        read_same ops file file' (dirs_written file file' pid page s kind logical r w)
          (dir_pages_written file file' pid page s kind logical r w) other place
          (λ q r'.
            laws.elsewhere file file' pid q page w
              (two_pages file s kind other logical place pid q r r' ne));
    count_kept = λ kind other logical page file file' h.
        let (pid, r, w) = write_inverse kind logical page file file' h in
        counts_of_header file file' (write_page_header ops laws file file' pid page w) other;
    hint_valid = λ kind hint file file' s h.
        hint-IsSound file file' (hinted kind hint file.header) (hint_write file file' kind hint h)
          s;
    hint_pages = λ kind other hint place file file' s h.
        hint_pages_same file file' (hinted kind hint file.header)
          (hint_write file file' kind hint h) s other place;
    hint_count = λ kind other hint file file' h.
        (hint_same file file' (hinted kind hint file.header) (hint_write file file' kind hint h)).1
          other;
  }

memory_write_fits :
    (bytes : List ℕ) (pid : ℕ) (old page : List ℕ)
    → memory_read bytes pid ≡ ok old
    → length page ≡ page_size
    → memory_write bytes pid page ≡ ok (patch (pid * page_size) page bytes)
unfolding memory_read memory_write
memory_write_fits bytes pid old page r whole =
    elim (Bool-cases (ltb (length bytes) (pid * page_size + page_size))) [
      | inl short ↦ absurd cc (rw short at r)
      | inr fits ↦ rw (fits, (==_iff (length page) page_size).1 whole) refl
    ]

memory-IsWritable : IsWritable (topology_file memory_backend)
unfolding write_topology_page write_page read_page
memory-IsWritable = record {
  writable = λ kind logical old page file h size range.
      let (pid, r, p) = read_inverse memory_backend memory-IsPageFile kind logical old file h in
      (
        record file { backend = patch (pid * page_size) page file.backend },
        >>=-ok (resolve_topology_page memory_backend kind file logical) _ pid r
            ∙ >>=-ok (memory_write file.backend pid page) _
                (patch (pid * page_size) page file.backend)
                (memory_write_fits file.backend pid old page p size),
      );
}

-- Over the memory backend, the database file keeps the contract that the topology store relies on,
-- in every sound file: a page of nodes or edges that is written reads back, every other such page
-- reads as before, search hints change no page and no page count, and the file stays sound. A write
-- of 4096 bytes to a page that can be read meets no error.
pub memory_contract :
    IsTopologyFile (topology_file memory_backend) (IsSound memory_backend)
    × IsWritable (topology_file memory_backend)
memory_contract = (topology_contract memory_backend memory-IsPageFile, memory-IsWritable)
