-- ===== src/Storage/Topology/Allocs.antt =====
-- `alloc_topology_slot`: the slot that it takes, and the slots that it leaves as they were.
use chiffondb.Prelude.{
  ℕ, zero, suc, ◌+◌, ◌-◌, ◌<◌, ◌≤◌, ◌≡◌, ◌≢◌, ◌⊎◌, inl, inr, refl, sym, ap, ◌∙◌, Bool, true, false,
  Bool-cases, Option, none, some, List, Result, ok, err, panic, >>=-ok, ◌>>=◌, ◌==◌, ==_iff, leb,
  if◌then◌else◌, arith,
}
use chiffondb.Bytes.Words.{IsBytes}
use chiffondb.Storage.Ids.{RecordId, rid_eq}
use chiffondb.Storage.Page.{Page, is_used, set_bitmap, alloc_slot, from_bytes}
use chiffondb.Storage.Page.Bitmap.{is_used-alloc_slot, alloc_slot_cases, alloc_slot-IsPage}
use chiffondb.Storage.Topology.{
  TopologyFile, TopologyKind, node_kind, edge_kind, load_page, load_node_page, load_edge_page,
  used_or_false, slot_used, scan_slots, advance_hint, alloc_topology_slot,
}
use chiffondb.Storage.Topology.Contract.{IsTopologyFile}
use chiffondb.Storage.Topology.Records.{>>=_inverse, record_page, record_page-IsPage}

pub Option-cases : {A : Type 0} (m : Option A) → (m ≡ none) ⊎ ((a : A) × (m ≡ some a))
Option-cases none = inl refl
Option-cases (some a) = inr (a, refl)

-- A search that takes a slot is the whole of `alloc_topology_slot`.
found_of : {A : Type 0} → A → Result (Option A) → A
found_of other (ok (some a)) = a
found_of other (ok none) = other
found_of other (err e) = other
found_of other panic = other

pub found_inverse : {A : Type 0} (a b : A) → ok (some a) ≡ ok (some b) → a ≡ b
unfolding found_of
found_inverse a b h = ap (found_of a) h

ok_of : {A : Type 0} → A → Result A → A
ok_of other (ok a) = a
ok_of other (err e) = other
ok_of other panic = other

pub ok_inverse : {A : Type 0} (a b : A) → ok a ≡ ok b → a ≡ b
unfolding ok_of
ok_inverse a b h = ap (ok_of a) h

-- A page keeps its shape where a slot is taken.
pub alloc_slot-record_page :
    (bytes : List ℕ) (slot : ℕ) (page : Page)
    → alloc_slot (record_page bytes) ≡ (some slot, page)
    → page ≡ record_page page.bytes
unfolding set_bitmap
alloc_slot-record_page bytes slot page h = elim (alloc_slot_cases (record_page bytes)) [
  | inl (full, q) ↦ cc
  | inr (m, lt, first, q) ↦
      let e : set_bitmap (record_page bytes) m true ≡ page = cc in rw (← e) refl
]

module _ {F : Type 0} (files : TopologyFile F) where
  pub load_page_lem :
      (kind : TopologyKind) (file : F) (logical : ℕ)
      → load_page files kind file logical
        ≡ (files.read_page kind logical file >>= λ bytes. ok (record_page bytes))
  unfolding load_page load_node_page load_edge_page from_bytes
  load_page_lem node_kind file logical = refl
  load_page_lem edge_kind file logical = refl

  -- The page that a slot was taken of, and the file before the hint is moved.
  pub record Taken (kind : TopologyKind) (logical slot : ℕ) (file file' : F) : Type 0 where
    pub bytes : List ℕ
    pub page : Page
    pub middle : F
    pub was : files.read_page kind logical file ≡ ok bytes
    pub took : alloc_slot (record_page bytes) ≡ (some slot, page)
    pub wrote : files.write_page kind logical page.bytes file ≡ ok middle
    pub moved : (start : ℕ) × (advance_hint files kind start logical middle ≡ ok file')

  pub scan_slots_takes :
      (kind : TopologyKind) (start n first : ℕ) (file file' : F) (logical slot : ℕ)
      → scan_slots files kind start n first file ≡ ok (some (logical, slot, file'))
      → (first ≤ logical) × (logical < first + n) × Taken kind logical slot file file'
  unfolding scan_slots
  scan_slots_takes kind start zero first file file' logical slot h = absurd cc
  scan_slots_takes kind start (suc n) first file file' logical slot h =
      let (page, l, h1) = >>=_inverse (load_page files kind file first) _ _ h in
      let (bytes, r, e) =
        >>=_inverse (files.read_page kind first file) _ page
          (sym (load_page_lem kind file first) ∙ l) in
      let same : record_page bytes ≡ page = cc e in
      elim (Option-cases ((alloc_slot page).0)) [
        | inl full ↦
            let h2 : scan_slots files kind start n (first + 1) file
                ≡ ok (some (logical, slot, file')) =
              rw full at h1 in
            let (low, high, taken) =
              scan_slots_takes kind start n (first + 1) file file' logical slot h2 in
            (omega arith, omega arith, taken)
        | inr (s, found) ↦
            let h2 = rw found at h1 in
            let (middle, w, h3) =
              >>=_inverse (files.write_page kind first (alloc_slot page).1.bytes file) _ _ h2 in
            let (after, m, h4) = >>=_inverse (advance_hint files kind start first middle) _ _ h3 in
            let t : ℕ × ℕ × F = (first, s, after) in
            let t' : ℕ × ℕ × F = (logical, slot, file') in
            let e = found_inverse t t' h4 in
            coe 0 1
              (i.
                (first ≤ (e i).0)
                × ((e i).0 < first + suc n)
                × Taken kind ((e i).0) ((e i).1) file ((e i).2))
              (
                omega arith,
                omega arith,
                (record {
                  bytes = bytes;
                  page = (alloc_slot page).1;
                  middle = middle;
                  was = r;
                  took = ap alloc_slot same ∙ (λ i. (found i, (alloc_slot page).1));
                  wrote = w;
                  moved = (start, m);
                }),
              )
      ]

  -- What taking a slot does to the test of the slots: its own was false and is true, the others stay.
  abbrev pub IsTaken : TopologyKind → RecordId → F → F → Type 0
  IsTaken kind rid file file' =
      (slot_used files kind file rid ≡ ok false)
      × ((other : RecordId)
          → slot_used files kind file' other
            ≡ (if rid_eq rid other then ok true else slot_used files kind file other))

  module _ {IsValid : F → Type 0} (laws : IsTopologyFile files IsValid) where
    pub slot_used_lem :
        (kind : TopologyKind) (file : F) (rid : RecordId) (bytes : List ℕ)
        → rid.page_id < files.page_count kind file
        → files.read_page kind rid.page_id file ≡ ok bytes
        → slot_used files kind file rid ≡ ok (is_used (record_page bytes) rid.slot_id)
    unfolding slot_used used_or_false
    slot_used_lem kind file rid bytes lt r =
        let within : leb (files.page_count kind file) rid.page_id ≡ false = ground arith in
        let l : load_page files kind file rid.page_id ≡ ok (record_page bytes) =
          load_page_lem kind file rid.page_id
          ∙ >>=-ok (files.read_page kind rid.page_id file) _ bytes r in
        rw within (rw l refl)

    slot_used_same :
        (kind : TopologyKind) (file file' : F) (rid : RecordId)
        → files.page_count kind file' ≡ files.page_count kind file
        → files.read_page kind rid.page_id file' ≡ files.read_page kind rid.page_id file
        → slot_used files kind file' rid ≡ slot_used files kind file rid
    unfolding slot_used
    slot_used_same kind file file' rid c r =
        let l : load_page files kind file' rid.page_id ≡ load_page files kind file rid.page_id =
          load_page_lem kind file' rid.page_id
          ∙ (rw r (sym (load_page_lem kind file rid.page_id))) in
        rw (c, l) refl

    advance_hint_same :
        (kind : TopologyKind) (start logical : ℕ) (file file' : F)
        → IsValid file
        → advance_hint files kind start logical file ≡ ok file'
        → (files.page_count kind file' ≡ files.page_count kind file)
          × ((place : ℕ) → files.read_page kind place file' ≡ files.read_page kind place file)
          × IsValid file'
    unfolding advance_hint
    advance_hint_same kind start logical file file' v h = elim (Bool-cases (logical == start)) [
      | inl stays ↦ let e : file ≡ file' = cc (rw stays at h) in rw (← e) (refl, λ place. refl, v)
      | inr moves ↦
          let h' = rw moves at h in
          (
            laws.hint_count kind kind logical file file' h',
            λ place. laws.hint_pages kind kind logical place file file' v h',
            laws.hint_valid kind logical file file' v h',
          )
    ]

    pub chosen :
        (rid other : RecordId) (page : Page) (before : Result Bool)
        → (rid.page_id == other.page_id) ≡ true
        → before ≡ ok (is_used page other.slot_id)
        → ok (if rid.slot_id == other.slot_id then true else is_used page other.slot_id)
          ≡ (if rid_eq rid other then ok true else before)
    chosen rid other page before same e = elim (Bool-cases (rid.slot_id == other.slot_id)) [
      | inl here ↦ rw (same, here) refl
      | inr there ↦ rw (same, there) (sym e)
    ]

    pub Taken-IsTaken :
        (kind : TopologyKind) (rid : RecordId) (file file' : F)
        → IsValid file
        → rid.page_id < files.page_count kind file
        → Taken kind rid.page_id rid.slot_id file file'
        → IsTaken kind rid file file' × IsValid file'
    Taken-IsTaken kind rid file file' v lt t =
        let (l, b) = laws.whole kind rid.page_id file t.bytes v t.was in
        let shape = alloc_slot-record_page t.bytes rid.slot_id t.page t.took in
        let (low, free, used) =
          is_used-alloc_slot (record_page t.bytes) t.page rid.slot_id
            (record_page-IsPage t.bytes l b) t.took in
        let in_range =
          coe 0 1 (i. IsBytes ((t.took i).1.bytes))
            (alloc_slot-IsPage (record_page t.bytes) (record_page-IsPage t.bytes l b)).in_range in
        let vm = laws.write_valid kind rid.page_id t.page.bytes file t.middle v in_range t.wrote in
        let (count, reads, after) =
          advance_hint_same kind t.moved.0 rid.page_id t.middle file' vm t.moved.1 in
        let count' =
          count ∙ laws.count_kept kind kind rid.page_id t.page.bytes file t.middle t.wrote in
        (
          (
            slot_used_lem kind file rid t.bytes lt t.was ∙ ap ok free,
            λ other. elim (Bool-cases (rid.page_id == other.page_id)) [
              | inl same ↦
                  let e = (==_iff rid.page_id other.page_id).0 same in
                  let lt' : other.page_id < files.page_count kind file' =
                    omega (arith, count', e, lt) in
                  let now : files.read_page kind other.page_id file' ≡ ok t.page.bytes =
                    ap (λ (k : ℕ). files.read_page kind k file') (sym e)
                    ∙ reads rid.page_id
                    ∙ laws.page_written kind rid.page_id t.page.bytes file t.middle v t.wrote in
                  let before : files.read_page kind other.page_id file ≡ ok t.bytes =
                    ap (λ (k : ℕ). files.read_page kind k file) (sym e) ∙ t.was in
                  slot_used_lem kind file' other t.page.bytes lt' now
                  ∙ ap (λ (p : Page). ok (is_used p other.slot_id)) (sym shape)
                  ∙ ap ok (used other.slot_id)
                  ∙ chosen rid other (record_page t.bytes) (slot_used files kind file other) same
                      (slot_used_lem kind file other t.bytes (omega (arith, e, lt)) before)
              | inr differs ↦
                  let ne : rid.page_id ≢ other.page_id =
                    λ e. absurd cc (sym differs ∙ (==_iff rid.page_id other.page_id).1 e) in
                  slot_used_same kind file file' other count' (
                    reads other.page_id
                    ∙ laws.page_elsewhere kind kind rid.page_id other.page_id t.page.bytes file
                        t.middle v t.wrote (inr ne))
                  ∙ (rw differs refl)
            ],
          ),
          after,
        )

    -- In a file of the contract's invariant, where the search of the pages from the hint on takes a
    -- slot, `alloc_topology_slot` returns that slot. It was not in use before; it is in use
    -- afterwards, for every other slot of the kind the test gives what it gave before, and the
    -- invariant holds again.
    pub alloc_topology_slot_effect :
        (kind : TopologyKind) (record_size : ℕ) (file file' : F) (logical slot : ℕ)
        → IsValid file
        → scan_slots files kind
            (files.first_free_hint kind file)
            (files.page_count kind file - files.first_free_hint kind file)
            (files.first_free_hint kind file)
            file
          ≡ ok (some (logical, slot, file'))
        → (alloc_topology_slot files kind record_size file ≡ ok (logical, slot, file'))
          × IsTaken kind (record { page_id = logical; slot_id = slot }) file file'
          × IsValid file'
    unfolding alloc_topology_slot
    alloc_topology_slot_effect kind record_size file file' logical slot v scanned =
        let start = files.first_free_hint kind file in
        let left = files.page_count kind file - start in
        let (low, high, taken) =
          scan_slots_takes kind start left start file file' logical slot scanned in
        let (used, after) =
          Taken-IsTaken kind (record { page_id = logical; slot_id = slot }) file file' v
            (omega arith) taken in
        (
          >>=-ok (scan_slots files kind start left start file) _ (some (logical, slot, file'))
              scanned,
          used,
          after,
        )
