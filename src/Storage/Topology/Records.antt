-- ===== src/Storage/Topology/Records.antt =====
-- The slots of the record pages, as bytes: what `read_node` and `read_edge`, `write_node` and
-- `write_edge` have in common.
use chiffondb.Prelude.{
  ℕ, ◌≡◌, ◌≢◌, ◌⊎◌, inl, inr, refl, sym, ap, ◌∙◌, false, Bool-cases, ==_iff, List, length, Result,
  ok, err, panic, storage_corrupted, leb, ◌==◌, if◌then◌else◌, ◌>>=◌, arith, leb→le, leb_false→lt,
}
use chiffondb.Bytes.Words.{IsBytes}
use chiffondb.Storage.Ids.{RecordId}
use chiffondb.Storage.Page.{
  Page, IsPage, page_size, compute_slot_count, read_slot, write_slot, from_bytes,
}
use chiffondb.Storage.Page.Capacity.{compute_slot_count_fits}
use chiffondb.Storage.Page.Slots.{write_slot_effect, write_slot_refused}
use chiffondb.Storage.Record.Node
use chiffondb.Storage.Record.Edge
use chiffondb.Storage.Record.Node.{NodeRecord, node_record_size}
use chiffondb.Storage.Record.Edge.{EdgeRecord, edge_record_size}
use chiffondb.Storage.Topology.{
  TopologyFile, TopologyKind, node_kind, edge_kind, load_node_page, load_edge_page, read_node,
  read_edge, write_node, write_edge,
}
use chiffondb.Storage.Topology.Contract.{IsTopologyFile}

-- A result that is ok comes from a first result that is ok.
pub >>=_inverse :
    {A B : Type 0} (m : Result A) (next : A → Result B) (b : B)
    → (m >>= next) ≡ ok b
    → (a : A) × (m ≡ ok a) × (next a ≡ ok b)
>>=_inverse (ok a) next b h = (a, refl, h)
>>=_inverse (err e) next b h = absurd cc
>>=_inverse panic next b h = absurd cc

-- A page of 64-byte slots over these bytes.
abbrev pub record_page : List ℕ → Page
record_page bytes = record { bytes = bytes; slot_size = 64; slot_count = compute_slot_count 64 }

pub record_page-IsPage :
    (bytes : List ℕ) → length bytes ≡ page_size → IsBytes bytes → IsPage (record_page bytes)
record_page-IsPage bytes l b = record { size = l; in_range = b; room = compute_slot_count_fits 64 }

from_bytes_lem : (bytes : List ℕ) → from_bytes bytes 64 ≡ ok (record_page bytes)
unfolding from_bytes
from_bytes_lem bytes = refl

module _ {F : Type 0} (files : TopologyFile F) where
  unfoldable pub read_record : TopologyKind → F → RecordId → Result (List ℕ)
  read_record kind file rid =
      if leb (files.page_count kind file) rid.page_id
      then err (storage_corrupted rid.page_id)
      else (files.read_page kind rid.page_id file >>= λ bytes.
          read_slot (record_page bytes) rid.slot_id)

  unfoldable pub write_record : TopologyKind → RecordId → List ℕ → F → Result F
  write_record kind rid content file =
      if leb (files.page_count kind file) rid.page_id
      then err (storage_corrupted rid.page_id)
      else (files.read_page kind rid.page_id file >>= λ bytes.
          write_slot (record_page bytes) rid.slot_id content >>= λ page.
          files.write_page kind rid.page_id page.bytes file)

  pub read_node_lem :
      (file : F) (rid : RecordId)
      → read_node files file rid ≡ (read_record node_kind file rid >>= Node.deserialize)
  unfolding read_node read_record load_node_page from_bytes
  read_node_lem file rid = ground arith

  pub write_node_lem :
      (file : F) (node : NodeRecord)
      → write_node files file node ≡ write_record node_kind node.id (Node.serialize node) file
  unfolding write_node write_record load_node_page from_bytes
  write_node_lem file node = ground arith

  pub read_edge_lem :
      (file : F) (rid : RecordId)
      → read_edge files file rid ≡ (read_record edge_kind file rid >>= Edge.deserialize)
  unfolding read_edge read_record load_edge_page from_bytes
  read_edge_lem file rid = ground arith

  pub write_edge_lem :
      (file : F) (edge : EdgeRecord)
      → write_edge files file edge ≡ write_record edge_kind edge.id (Edge.serialize edge) file
  unfolding write_edge write_record load_edge_page from_bytes
  write_edge_lem file edge = ground arith

  -- What a write that succeeded went through.
  write_record_inverse :
      (kind : TopologyKind) (rid : RecordId) (content : List ℕ) (file file' : F)
      → write_record kind rid content file ≡ ok file'
      → (leb (files.page_count kind file) rid.page_id ≡ false)
        × (bytes : List ℕ) × (files.read_page kind rid.page_id file ≡ ok bytes)
        × (page : Page) × (write_slot (record_page bytes) rid.slot_id content ≡ ok page)
        × (files.write_page kind rid.page_id page.bytes file ≡ ok file')
  unfolding write_record
  write_record_inverse kind rid content file file' h =
      elim (Bool-cases (leb (files.page_count kind file) rid.page_id)) [
        | inl out ↦ absurd cc (rw out at h)
        | inr within ↦
            let h1 = (rw within at h) in
            let (bytes, r, h2) = >>=_inverse (files.read_page kind rid.page_id file) _ file' h1 in
            let (page, w, h3) =
              >>=_inverse (write_slot (record_page bytes) rid.slot_id content) _ file' h2 in
            (within, bytes, r, page, w, h3)
      ]

  read_record_lem :
      (kind : TopologyKind) (file : F) (rid : RecordId) (bytes : List ℕ)
      → leb (files.page_count kind file) rid.page_id ≡ false
      → files.read_page kind rid.page_id file ≡ ok bytes
      → read_record kind file rid ≡ read_slot (record_page bytes) rid.slot_id
  unfolding read_record
  read_record_lem kind file rid bytes within r = rw within (rw r refl)

  read_record_same :
      (kind : TopologyKind) (file file' : F) (rid : RecordId)
      → files.page_count kind file' ≡ files.page_count kind file
      → files.read_page kind rid.page_id file' ≡ files.read_page kind rid.page_id file
      → read_record kind file' rid ≡ read_record kind file rid
  unfolding read_record
  read_record_same kind file file' rid c r = rw (c, r) refl

rids_apart :
    (rid place : RecordId)
    → rid ≢ place
    → (rid.page_id ≢ place.page_id)
      ⊎ ((rid.page_id ≡ place.page_id) × (rid.slot_id ≢ place.slot_id))
rids_apart rid place ne = elim (Bool-cases (rid.page_id == place.page_id)) [
  | inl same ↦
      let e : rid.page_id ≡ place.page_id = (==_iff rid.page_id place.page_id).0 same in
      inr (e, λ s. ne (λ i. record { page_id = e i; slot_id = s i }))
  | inr other ↦ inl (λ e. absurd cc (sym other ∙ (==_iff rid.page_id place.page_id).1 e))
]

kind_cases : (kind other : TopologyKind) → (kind ≡ other) ⊎ (kind ≢ other)
kind_cases node_kind node_kind = inl refl
kind_cases node_kind edge_kind = inr (λ e. cc)
kind_cases edge_kind node_kind = inr (λ e. cc)
kind_cases edge_kind edge_kind = inl refl

-- Two slots that differ lie on different pages, or are different slots of one page.
places_apart :
    (kind other : TopologyKind) (rid place : RecordId)
    → (kind ≢ other) ⊎ (rid ≢ place)
    → ((kind ≢ other) ⊎ (rid.page_id ≢ place.page_id))
      ⊎ ((kind ≡ other) × (rid.page_id ≡ place.page_id) × (rid.slot_id ≢ place.slot_id))
places_apart kind other rid place (inl ne) = inl (inl ne)
places_apart kind other rid place (inr ne) = elim (kind_cases kind other) [
  | inr differ ↦ inl (inl differ)
  | inl same ↦ elim (rids_apart rid place ne) [
    | inl page ↦ inl (inr page)
    | inr (page, slot) ↦ inr (same, page, slot)
  ]
]

-- A slot that is written keeps the shape of the page.
write_slot-record_page :
    (bytes : List ℕ) (slot : ℕ) (content : List ℕ) (page : Page)
    → write_slot (record_page bytes) slot content ≡ ok page
    → page ≡ record_page page.bytes
unfolding write_slot
write_slot-record_page bytes slot content page h = ground arith

-- What a successful write to a slot of a page does, by the laws of slots.
slot_written :
    (bytes : List ℕ) (slot : ℕ) (content : List ℕ) (page : Page)
    → length bytes ≡ page_size
    → IsBytes bytes
    → length content ≡ 64
    → IsBytes content
    → write_slot (record_page bytes) slot content ≡ ok page
    → (read_slot page slot ≡ ok content)
      × ((j : ℕ) → slot ≢ j → read_slot page j ≡ read_slot (record_page bytes) j)
      × IsBytes page.bytes
slot_written bytes slot content page l b c f h =
    elim (Bool-cases (leb (compute_slot_count 64) slot)) [
      | inl out ↦
          absurd cc
            (sym h ∙ write_slot_refused (record_page bytes) slot content (inr (leb→le _ _ out)))
      | inr within ↦
          let (page', w, valid, self, others, used) =
            write_slot_effect (record_page bytes) slot content (record_page-IsPage bytes l b)
              (leb_false→lt _ _ within) c f in
          let e : page' ≡ page = cc (sym w ∙ h) in rw (← e) (self, others, valid.in_range)
    ]

module _ {F : Type 0} (files : TopologyFile F) {IsValid : F → Type 0}
    (laws : IsTopologyFile files IsValid) where
  pub write_record_effect :
      (kind : TopologyKind) (rid : RecordId) (content : List ℕ) (file file' : F)
      → IsValid file
      → length content ≡ 64
      → IsBytes content
      → write_record files kind rid content file ≡ ok file'
      → (read_record files kind file' rid ≡ ok content)
        × ((other : TopologyKind) (place : RecordId)
            → (kind ≢ other) ⊎ (rid ≢ place)
            → read_record files other file' place ≡ read_record files other file place)
        × IsValid file'
  write_record_effect kind rid content file file' v c f h =
      let (within, bytes, r, page, w, h') =
        write_record_inverse files kind rid content file file' h in
      let (l, b) = laws.whole kind rid.page_id file bytes v r in
      let (self, others, in_range) = slot_written bytes rid.slot_id content page l b c f w in
      let shape = write_slot-record_page bytes rid.slot_id content page w in
      let count =
        λ (k : TopologyKind). laws.count_kept kind k rid.page_id page.bytes file file' h' in
      let within' : leb (files.page_count kind file') rid.page_id ≡ false =
        rw (count kind) within in
      let r' = laws.page_written kind rid.page_id page.bytes file file' v h' in
      let at = λ (slot : ℕ).
        read_record_lem files kind file' (record { page_id = rid.page_id; slot_id = slot })
          page.bytes within' r'
        ∙ ap (λ (p : Page). read_slot p slot) (sym shape) in
      (
        at rid.slot_id ∙ self,
        λ other place ne. elim (places_apart kind other rid place ne) [
          | inl apart ↦ read_record_same files other file file' place (count other) (
              laws.page_elsewhere kind other rid.page_id place.page_id page.bytes file file' v h'
                apart)
          | inr (k, p, slot) ↦
              coe 0 1
                (i.
                  read_record files (k i) file' (record { page_id = p i; slot_id = place.slot_id })
                  ≡ read_record files (k i) file
                      (record { page_id = p i; slot_id = place.slot_id }))
                (at place.slot_id
                  ∙ others place.slot_id slot
                  ∙ sym (
                      read_record_lem files kind file
                        (record { page_id = rid.page_id; slot_id = place.slot_id }) bytes within r))
        ],
        laws.write_valid kind rid.page_id page.bytes file file' v in_range h',
      )
