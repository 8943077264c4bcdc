-- ===== src/Tests/Graphs.antt =====
-- storage/topology.rs over a file that is a function from page numbers to pages of each kind.
use chiffondb.Prelude.{
  ℕ, ◌<◌, ◌≡◌, ◌≢◌, ◌⊎◌, inl, inr, refl, sym, ap, ◌∙◌, Bool, true, false, Bool-cases, ==_iff, List,
  [], ◌∷◌, length, replicate, length-replicate, All-replicate, >>=-ok, ok, err, io, ◌==◌, ltb,
  ltb→lt, ◌&&◌, all, if◌then◌else◌, arith,
}
use chiffondb.Bytes.Words.{IsByte, IsBytes}
use chiffondb.Storage.Ids.{RecordId}
use chiffondb.Storage.Page.{compute_slot_count, fit_slots}
use chiffondb.Storage.Page.Slots.{read_slot_lem}
use chiffondb.Storage.Record.Node
use chiffondb.Storage.Record.Edge
use chiffondb.Storage.Record.Node.{NodeRecord, IsNodeRecord}
use chiffondb.Storage.Record.Edge.{EdgeRecord, IsEdgeRecord}
use chiffondb.Storage.Topology.{
  TopologyFile, TopologyKind, node_kind, edge_kind, read_node, read_edge,
}
use chiffondb.Storage.Topology.Contract.{IsTopologyFile, IsWritable}
use chiffondb.Storage.Topology.Records.{
  read_node_lem, read_edge_lem, record_page, record_page-IsPage, read_record,
}
use chiffondb.Storage.Topology.Changes.{write_node_effect, write_edge_effect}
use chiffondb.Storage.Topology.Totals.{write_node_total, write_edge_total}

abbrev pub Memory : Type 0
Memory = TopologyKind → ℕ → List ℕ

pub is_page_of_bytes : List ℕ → Bool
is_page_of_bytes page = length page == 4096 && all (λ (b : ℕ). ltb b 256) page

same_kind : TopologyKind → TopologyKind → Bool
same_kind node_kind node_kind = true
same_kind node_kind edge_kind = false
same_kind edge_kind node_kind = false
same_kind edge_kind edge_kind = true

pub update : TopologyKind → ℕ → List ℕ → Memory → Memory
update kind logical page file k l = if same_kind kind k && logical == l then page else file k l

abbrev pub memory : TopologyFile Memory
memory = record {
  page_count = λ kind file. 2;
  first_free_hint = λ kind file. 0;
  set_first_free_hint = λ kind hint file. ok file;
  read_page = λ kind logical file.
      if is_page_of_bytes (file kind logical) then ok (file kind logical) else err io;
  write_page = λ kind logical page file.
      if is_page_of_bytes page then ok (update kind logical page file) else err io;
  alloc_page = λ kind page file. err io;
}

guarded :
    {A : Type 0} (test : Bool) (a b : A)
    → (if test then ok a else err io) ≡ ok b
    → (test ≡ true) × (a ≡ b)
guarded true a b h = (refl, cc h)
guarded false a b h = absurd cc

all_bytes : (page : List ℕ) → all (λ (b : ℕ). ltb b 256) page ≡ true → IsBytes page
all_bytes [] h = tt
all_bytes (b ∷ page) h = elim (Bool-cases (ltb b 256)) [
  | inl lt ↦ (ltb→lt b 256 lt, all_bytes page (rw lt at h))
  | inr other ↦ absurd cc (rw other at h)
]

all_bytes_test : (page : List ℕ) → IsBytes page → all (λ (b : ℕ). ltb b 256) page ≡ true
all_bytes_test [] h = refl
all_bytes_test (b ∷ page) h = ground (arith, all_bytes_test page h.1)

valid_sound : (page : List ℕ) → is_page_of_bytes page ≡ true → (length page ≡ 4096) × IsBytes page
unfolding is_page_of_bytes
valid_sound page h = elim (Bool-cases (length page == 4096)) [
  | inl size ↦ ((==_iff (length page) 4096).0 size, all_bytes page (rw size at h))
  | inr other ↦ absurd cc (rw other at h)
]

pub valid_complete :
    (page : List ℕ) → length page ≡ 4096 → IsBytes page → is_page_of_bytes page ≡ true
unfolding is_page_of_bytes
valid_complete page size bytes = rw ((==_iff (length page) 4096).1 size) (all_bytes_test page bytes)

update_self :
    (kind : TopologyKind) (logical : ℕ) (page : List ℕ) (file : Memory)
    → update kind logical page file kind logical ≡ page
unfolding update same_kind
update_self node_kind logical page file = rw ((==_iff logical logical).1 refl) refl
update_self edge_kind logical page file = rw ((==_iff logical logical).1 refl) refl

update_other :
    (kind other : TopologyKind) (logical place : ℕ) (page : List ℕ) (file : Memory)
    → (kind ≢ other) ⊎ (logical ≢ place)
    → update kind logical page file other place ≡ file other place
unfolding update same_kind
update_other node_kind node_kind logical place page file (inl h) = absurd (h refl)
update_other edge_kind edge_kind logical place page file (inl h) = absurd (h refl)
update_other node_kind edge_kind logical place page file h = refl
update_other edge_kind node_kind logical place page file h = refl
update_other node_kind node_kind logical place page file (inr h) =
    ground (arith, ==_iff logical place)
update_other edge_kind edge_kind logical place page file (inr h) =
    ground (arith, ==_iff logical place)

-- The test store keeps the contract in every state.
abbrev pub IsStore : Memory → Type 0
IsStore file = Unit

pub memory-IsTopologyFile : IsTopologyFile memory IsStore
memory-IsTopologyFile = record {
  whole = λ kind logical file bytes v h.
      let (valid, e) = guarded (is_page_of_bytes (file kind logical)) (file kind logical) bytes h in
      rw (← e) (valid_sound (file kind logical) valid);
  write_valid = λ kind logical bytes file file' v b h. tt;
  page_written = λ kind logical bytes file file' v h.
      let (valid, e) = guarded (is_page_of_bytes bytes) (update kind logical bytes file) file' h in
      rw (← e) (rw (update_self kind logical bytes file) (rw valid refl));
  page_elsewhere = λ kind other logical place bytes file file' v h ne.
      let (valid, e) = guarded (is_page_of_bytes bytes) (update kind logical bytes file) file' h in
      rw (← e) (rw (update_other kind other logical place bytes file ne) refl);
  count_kept = λ kind other logical bytes file file' h. refl;
  hint_valid = λ kind hint file file' v h. tt;
  hint_pages = λ kind other hint place file file' v h. let e : file ≡ file' = cc h in rw (← e) refl;
  hint_count = λ kind other hint file file' h. refl;
}

pub memory-IsWritable : IsWritable memory
memory-IsWritable = record {
  writable = λ kind logical old bytes file h size range.
      (update kind logical bytes file, rw (valid_complete bytes size range) refl);
}

abbrev zeros : List ℕ
zeros = replicate 4096 0

abbrev pub blank : Memory
blank kind logical = zeros

zeros_fit : IsBytes zeros
zeros_fit = All-replicate IsByte 4096 0 (omega arith)

blank_record :
    (kind : TopologyKind) (slot : ℕ)
    → slot < 63
    → (content : List ℕ) × (read_record memory kind blank (record { page_id = 0; slot_id = slot })
        ≡ ok content)
unfolding read_record compute_slot_count fit_slots
blank_record kind slot lt = (
  _,
  >>=-ok (memory.read_page kind 0 blank) _ zeros
        (rw (valid_complete zeros (length-replicate 4096 0) zeros_fit) refl)
      ∙ read_slot_lem (record_page zeros) slot
          (record_page-IsPage zeros (length-replicate 4096 0) zeros_fit) lt,
)

-- A slot of page 0.
abbrev pub place : ℕ → RecordId
place slot = record { page_id = 0; slot_id = slot }

-- Every slot of the first pages can be read.
abbrev pub IsReadable : Memory → Type 0
IsReadable file =
    ((slot : ℕ) → slot < 63 → (old : NodeRecord) × (read_node memory file (place slot) ≡ ok old))
    × ((slot : ℕ) → slot < 63 → (old : EdgeRecord) × (read_edge memory file (place slot) ≡ ok old))

pub blank-IsReadable : IsReadable blank
unfolding Node.deserialize Edge.deserialize
blank-IsReadable = (
  λ slot lt.
      let (content, r) = blank_record node_kind slot lt in
      (
        _,
        read_node_lem memory blank (place slot)
            ∙ >>=-ok (read_record memory node_kind blank (place slot)) _ content r,
      ),
  λ slot lt.
      let (content, r) = blank_record edge_kind slot lt in
      (
        _,
        read_edge_lem memory blank (place slot)
            ∙ >>=-ok (read_record memory edge_kind blank (place slot)) _ content r,
      ),
)

places_ne : (i j : ℕ) → i ≢ j → place i ≢ place j
places_ne i j ne e = ne (ap (λ (r : RecordId). r.slot_id) e)

pub put_edge :
    (file : Memory) (slot : ℕ) (edge : EdgeRecord)
    → IsReadable file
    → slot < 63
    → edge.id ≡ place slot
    → IsEdgeRecord edge
    → (file' : Memory) × IsReadable file'
      × (read_edge memory file' (place slot) ≡ ok edge)
      × ((other : ℕ)
          → slot ≢ other
          → read_edge memory file' (place other) ≡ read_edge memory file (place other))
      × ((rid : RecordId) → read_node memory file' rid ≡ read_node memory file rid)
put_edge file slot edge (nodes, edges) lt e fits =
    let (old, r) = edges slot lt in
    let (file', w) =
      write_edge_total memory memory-IsTopologyFile memory-IsWritable file edge old tt fits
        (ap (read_edge memory file) e ∙ r) in
    let (self, others, same, valid) =
      write_edge_effect memory memory-IsTopologyFile file file' edge tt fits w in
    let here : read_edge memory file' (place slot) ≡ ok edge =
      ap (read_edge memory file') (sym e) ∙ self in
    let there = λ (other : ℕ) (ne : slot ≢ other).
      others (place other) (λ q. places_ne slot other ne (sym e ∙ q)) in
    (
      file',
      (
        λ s l. let (n, q) = nodes s l in (n, same (place s) ∙ q),
        λ s l. elim (Bool-cases (slot == s)) [
          | inl q ↦ (
            edge,
            ap (λ (k : ℕ). read_edge memory file' (place k)) (sym ((==_iff slot s).0 q)) ∙ here,
          )
          | inr q ↦
              let (n, old') = edges s l in
              (n, there s (λ k. absurd cc (sym q ∙ (==_iff slot s).1 k)) ∙ old')
        ],
      ),
      here,
      there,
      same,
    )

pub put_node :
    (file : Memory) (slot : ℕ) (node : NodeRecord)
    → IsReadable file
    → slot < 63
    → node.id ≡ place slot
    → IsNodeRecord node
    → (file' : Memory) × IsReadable file'
      × (read_node memory file' (place slot) ≡ ok node)
      × ((other : ℕ)
          → slot ≢ other
          → read_node memory file' (place other) ≡ read_node memory file (place other))
      × ((rid : RecordId) → read_edge memory file' rid ≡ read_edge memory file rid)
put_node file slot node (nodes, edges) lt e fits =
    let (old, r) = nodes slot lt in
    let (file', w) =
      write_node_total memory memory-IsTopologyFile memory-IsWritable file node old tt fits
        (ap (read_node memory file) e ∙ r) in
    let (self, others, same, valid) =
      write_node_effect memory memory-IsTopologyFile file file' node tt fits w in
    let here : read_node memory file' (place slot) ≡ ok node =
      ap (read_node memory file') (sym e) ∙ self in
    let there = λ (other : ℕ) (ne : slot ≢ other).
      others (place other) (λ q. places_ne slot other ne (sym e ∙ q)) in
    (
      file',
      (
        λ s l. elim (Bool-cases (slot == s)) [
          | inl q ↦ (
            node,
            ap (λ (k : ℕ). read_node memory file' (place k)) (sym ((==_iff slot s).0 q)) ∙ here,
          )
          | inr q ↦
              let (n, old') = nodes s l in
              (n, there s (λ k. absurd cc (sym q ∙ (==_iff slot s).1 k)) ∙ old')
        ],
        λ s l. let (n, q) = edges s l in (n, same (place s) ∙ q),
      ),
      here,
      there,
      same,
    )
