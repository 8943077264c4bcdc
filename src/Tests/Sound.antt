-- ===== src/Tests/Sound.antt =====
-- storage/file.rs: a database in memory with a page of nodes and a page of edges, and its invariant.
use chiffondb.Prelude.{
  ◌>>=◌, ℕ, zero, suc, ◌≡◌, ◌≢◌, refl, sym, ap, ◌∙◌, inl, inr, true, Bool-cases, none, err,
  storage_corrupted, ◌%◌, ◌*◌, List, ◌∷◌, ◌++◌, replicate, All-append, All-replicate, ok, leb,
  leb_false→lt, arith,
}
use chiffondb.Bytes.Words.{IsByte, IsBytes, from_le_bytes}
use chiffondb.Bytes.Slices.{slice, All-slice}
use chiffondb.Storage.Directory.{dir_page_pid, follow, resolve, read_link, read_entry, mapped}
use chiffondb.Storage.Ids.{RecordId, null_record, decode_record_id, decode_record_id_6}
use chiffondb.Storage.Page
use chiffondb.Storage.Page.{read_slot}
use chiffondb.Storage.Record.Node
use chiffondb.Storage.Record.Node.{NodeRecord}
use chiffondb.Storage.Record.Edge
use chiffondb.Storage.Record.Edge.{EdgeRecord}
use chiffondb.Storage.Topology.{
  TopologyFile, TopologyKind, node_kind, edge_kind, read_node, read_edge, load_node_page,
  load_edge_page,
}
use chiffondb.Storage.Topology.Records.{record_page}
use chiffondb.Storage.Header
use chiffondb.Storage.File.{
  DatabaseFile, memory_backend, memory_read, read_page, page_file, topology_dir,
  resolve_topology_page, found_or_corrupted, read_topology_page, topology_page_count, topology_file,
}
use chiffondb.Storage.File.Memory.{memory_read_lem}
use chiffondb.Storage.File.Sound.{IsSound, IsDirPage}

-- A directory page with no page behind it and one entry.
dir_page : ℕ → List ℕ
dir_page entry = 255 ∷ 255 ∷ 255 ∷ 255 ∷ entry ∷ replicate 4091 0

-- Pages whose first slot holds a node and an edge, all of whose optional record ids are none.
node_page : List ℕ
node_page = replicate 16 0 ++ (replicate 28 255 ++ replicate 4052 0)

edge_page : List ℕ
edge_page = replicate 28 0 ++ (replicate 21 255 ++ (0 ∷ (replicate 7 255 ++ replicate 4039 0)))

-- The header's page, the directory and the page of the nodes, those of the edges.
pub file : DatabaseFile (List ℕ)
file = record {
  backend = replicate 4096 0 ++ (dir_page 2 ++ (node_page ++ (dir_page 4 ++ edge_page)));
  header = record (Header.new) {
    node_dir_root = 1;
    node_page_count = 1;
    edge_dir_root = 3;
    edge_page_count = 1;
  };
  logical_page_count = 5;
}

abbrev root_of : TopologyKind → ℕ
root_of node_kind = 1
root_of edge_kind = 3

abbrev page_of : TopologyKind → ℕ
page_of node_kind = 2
page_of edge_kind = 4

first_page :
    (kind : TopologyKind) → resolve_topology_page memory_backend kind file 0 ≡ ok (page_of kind)
unfolding resolve_topology_page resolve topology_dir file dir_page node_page edge_page dir_page_pid
    follow read_page memory_read read_entry mapped found_or_corrupted Header.new replicate
    from_le_bytes slice
first_page node_kind = refl
first_page edge_kind = refl

beyond :
    (kind : TopologyKind) (logical : ℕ)
    → leb 1 logical ≡ true
    → resolve_topology_page memory_backend kind file logical
      ≡ err (storage_corrupted (logical % 4294967296))
unfolding resolve_topology_page resolve topology_dir file found_or_corrupted Header.new
beyond node_kind logical out = rw (out, resolve) refl
beyond edge_kind logical out = rw (out, resolve) refl

no_more :
    (kind : TopologyKind) (n : ℕ)
    → dir_page_pid (page_file memory_backend) (topology_dir memory_backend kind file) file (suc n)
      ≡ ok none
unfolding topology_dir file dir_page node_page edge_page dir_page_pid follow read_page memory_read
    read_link replicate from_le_bytes slice Header.new
no_more node_kind n = refl
no_more edge_kind n = refl

resolved :
    (kind : TopologyKind) (logical pid : ℕ)
    → resolve_topology_page memory_backend kind file logical ≡ ok pid
    → (logical ≡ 0) × (page_of kind ≡ pid)
resolved kind logical pid h = elim (Bool-cases (leb 1 logical)) [
  | inl out ↦ absurd cc (sym (beyond kind logical out) ∙ h)
  | inr within ↦
      let e : logical ≡ 0 = omega (arith, leb_false→lt _ _ within) in
      let at : resolve_topology_page memory_backend kind file 0 ≡ ok pid =
        ap (resolve_topology_page memory_backend kind file) (sym e) ∙ h in
      (e, cc (sym (first_page kind) ∙ at))
]

dir_pages :
    (kind : TopologyKind) (i q : ℕ) → IsDirPage memory_backend file kind i q → root_of kind ≡ q
unfolding dir_page_pid topology_dir file follow
dir_pages node_kind zero q h = cc
dir_pages edge_kind zero q h = cc
dir_pages node_kind (suc n) q h = absurd cc (sym (no_more node_kind n) ∙ h)
dir_pages edge_kind (suc n) q h = absurd cc (sym (no_more edge_kind n) ∙ h)

kinds : (kind other : TopologyKind) → page_of kind ≡ page_of other → kind ≡ other
kinds node_kind node_kind e = refl
kinds edge_kind edge_kind e = refl
kinds node_kind edge_kind e = absurd (omega (arith, e))
kinds edge_kind node_kind e = absurd (omega (arith, e))

apart : (kind other : TopologyKind) → page_of kind ≢ root_of other
apart node_kind node_kind e = omega (arith, e)
apart node_kind edge_kind e = omega (arith, e)
apart edge_kind node_kind e = omega (arith, e)
apart edge_kind edge_kind e = omega (arith, e)

real : (kind : TopologyKind) → (0 ≢ root_of kind) × (0 ≢ page_of kind)
real node_kind = (λ e. omega (arith, e), λ e. omega (arith, e))
real edge_kind = (λ e. omega (arith, e), λ e. omega (arith, e))

dir_page-IsBytes : (entry : ℕ) → IsByte entry → IsBytes (dir_page entry)
unfolding dir_page
dir_page-IsBytes entry h = (
  omega arith,
  (omega arith, (omega arith, (omega arith, (h, All-replicate IsByte 4091 0 (omega arith))))),
)

same : (n b : ℕ) → IsByte b → IsBytes (replicate n b)
same n b h = All-replicate IsByte n b h

node_page-IsBytes : IsBytes node_page
unfolding node_page
node_page-IsBytes =
    All-append IsByte (replicate 16 0) _ (same 16 0 (omega arith)) (
      All-append IsByte (replicate 28 255) _ (same 28 255 (omega arith))
        (same 4052 0 (omega arith)))

edge_page-IsBytes : IsBytes edge_page
unfolding edge_page
edge_page-IsBytes = All-append IsByte (replicate 28 0) _ (same 28 0 (omega arith)) (
    All-append IsByte (replicate 21 255) _ (same 21 255 (omega arith)) (
      omega arith,
      All-append IsByte (replicate 7 255) _ (same 7 255 (omega arith)) (same 4039 0 (omega arith)),
    ))

file-IsBytes : IsBytes (file.backend)
unfolding file
file-IsBytes = All-append IsByte (replicate 4096 0) _ (same 4096 0 (omega arith)) (
    All-append IsByte (dir_page 2) _ (dir_page-IsBytes 2 (omega arith)) (
      All-append IsByte node_page _ node_page-IsBytes
        (All-append IsByte (dir_page 4) _ (dir_page-IsBytes 4 (omega arith)) edge_page-IsBytes)))

pub file-IsSound : IsSound memory_backend file
unfolding read_page
file-IsSound = record {
  in_bytes = λ pid page other h.
      let (fits, e) = memory_read_lem (file.backend) page pid h in
      rw (← e) (All-slice IsByte (pid * 4096) 4096 (file.backend) file-IsBytes);
  dir_real = λ kind i q d e. (real kind).0 (e ∙ sym (dir_pages kind i q d));
  page_real = λ kind logical pid h e. (real kind).1 (e ∙ sym ((resolved kind logical pid h).1));
  apart = λ kind other logical i pid q h d e.
      apart kind other ((resolved kind logical pid h).1 ∙ e ∙ sym (dir_pages other i q d));
  injective = λ kind other logical place pid h h'.
      let (l, p) = resolved kind logical pid h in
      let (l', p') = resolved other place pid h' in (kinds kind other (p ∙ sym p'), l ∙ sym l');
}

-- The first slot of the page of nodes, and that of the page of edges, read as these records.
abbrev pub origin : RecordId
origin = record { page_id = 0; slot_id = 0 }

abbrev pub blank_node : NodeRecord
blank_node = record {
  id = origin;
  node_type_id = 0;
  first_out_edge = none;
  first_in_edge = none;
  property_ref = none;
  label_ref = none;
  flags = 0;
}

abbrev pub blank_edge : EdgeRecord
blank_edge = record {
  id = origin;
  edge_type_id = 0;
  from_node = origin;
  to_node = origin;
  next_out_edge = none;
  next_in_edge = none;
  property_ref = none;
  flags = 0;
  label_ref = none;
}

abbrev pub database : TopologyFile (DatabaseFile (List ℕ))
database = topology_file memory_backend

abbrev content : TopologyKind → List ℕ
content node_kind = node_page
content edge_kind = edge_page

page_read :
    (kind : TopologyKind) → read_topology_page memory_backend kind 0 file ≡ ok (content kind)
unfolding read_topology_page resolve_topology_page resolve topology_dir file dir_page node_page
    edge_page dir_page_pid follow read_page memory_read read_entry mapped found_or_corrupted
    Header.new replicate from_le_bytes slice
page_read node_kind = refl
page_read edge_kind = refl

counted : (kind : TopologyKind) → topology_page_count memory_backend kind file ≡ 1
unfolding topology_page_count file Header.new
counted node_kind = refl
counted edge_kind = refl

node_slot : (read_slot (record_page node_page) 0 >>= Node.deserialize) ≡ ok blank_node
unfolding read_slot Node.deserialize decode_record_id decode_record_id_6 null_record replicate slice
    from_le_bytes node_page Page.compute_slot_count Page.fit_slots
node_slot = refl

edge_slot : (read_slot (record_page edge_page) 0 >>= Edge.deserialize) ≡ ok blank_edge
unfolding read_slot Edge.deserialize decode_record_id decode_record_id_6 null_record replicate slice
    from_le_bytes edge_page Page.compute_slot_count Page.fit_slots
edge_slot = refl

pub node_read : read_node database file origin ≡ ok blank_node
unfolding read_node load_node_page Page.from_bytes
node_read = rw (counted node_kind) (rw (page_read node_kind) node_slot)

pub edge_read : read_edge database file origin ≡ ok blank_edge
unfolding read_edge load_edge_page Page.from_bytes
edge_read = rw (counted edge_kind) (rw (page_read edge_kind) edge_slot)
