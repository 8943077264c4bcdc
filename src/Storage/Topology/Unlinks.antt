-- ===== src/Storage/Topology/Unlinks.antt =====
-- `remove_from_out_list` and `remove_from_in_list`.
use chiffondb.Prelude.{
  ℕ, suc, zero, ◌<◌, ◌≤◌, ◌≡◌, ◌≢◌, refl, sym, ap, ◌∙◌, Option, none, some, List, [], ◌∷◌, ◌++◌,
  map, length, All, true, false, Bool-cases, inl, inr, ==_iff, ◌==◌, Result, ok, arith,
}
use chiffondb.Storage.Ids.{RecordId, rid_eq, IsRidOption}
use chiffondb.Storage.Record.Node.{NodeRecord}
use chiffondb.Storage.Record.Edge.{EdgeRecord}
use chiffondb.Storage.Topology.{
  TopologyFile, EdgeDirection, next_edge, first_edge, with_next, with_first, read_node, read_edge,
  write_node, write_edge, unlink, remove_from_list, collect_edge_chain,
}
use chiffondb.Storage.Topology.Contract.{IsTopologyFile}
use chiffondb.Storage.Topology.Changes.{
  read_node-IsNodeRecord, read_edge-IsEdgeRecord, write_node_effect, write_edge_effect,
}
use chiffondb.Storage.Topology.Chains.{Segment, collect_edge_chain-Segment}
use chiffondb.Storage.Topology.Links.{
  next_edge-with_next, id-with_next, first_edge-with_first, id-with_first, with_next-IsEdgeRecord,
  with_first-IsNodeRecord, Segment-kept_edges, All-apart,
}

-- The edges, with the link of the last one led elsewhere.
unfoldable pub relink : EdgeDirection → Option RecordId → List EdgeRecord → List EdgeRecord
relink direction next [] = []
relink direction next (edge ∷ []) = with_next direction next edge ∷ []
relink direction next (edge ∷ follower ∷ edges) = edge ∷ relink direction next (follower ∷ edges)

-- No two of the edges lie in one slot.
abbrev pub IsDistinct : List EdgeRecord → Type 0
IsDistinct [] = Unit
IsDistinct (edge ∷ edges) = All (λ (e : EdgeRecord). edge.id ≢ e.id) edges × IsDistinct edges

abbrev pub ids : List EdgeRecord → List RecordId
ids edges = map (λ (e : EdgeRecord). e.id) edges

ids-relink :
    (d : EdgeDirection) (next : Option RecordId) (before after : List EdgeRecord)
    → ids (relink d next before ++ after) ≡ ids (before ++ after)
unfolding relink
ids-relink d next [] after = refl
ids-relink d next (e ∷ []) after = rw (id-with_next d next e) refl
ids-relink d next (e ∷ f ∷ edges) after = ap (◌∷◌ e.id) (ids-relink d next (f ∷ edges) after)

length-relink :
    (d : EdgeDirection) (next : Option RecordId) (before after : List EdgeRecord)
    → length (relink d next before ++ after) ≡ length (before ++ after)
unfolding relink
length-relink d next [] after = refl
length-relink d next (e ∷ []) after = refl
length-relink d next (e ∷ f ∷ edges) after = ap suc (length-relink d next (f ∷ edges) after)

pub rid_eq_self : (rid : RecordId) → rid_eq rid rid ≡ true
rid_eq_self rid = ground (arith, ==_iff rid.page_id rid.page_id, ==_iff rid.slot_id rid.slot_id)

pub rid_eq_sound : (a b : RecordId) → rid_eq a b ≡ true → a ≡ b
rid_eq_sound a b h = elim (Bool-cases (a.page_id == b.page_id)) [
  | inr other ↦ absurd cc (rw other at h)
  | inl same ↦
      let p : a.page_id ≡ b.page_id = (==_iff a.page_id b.page_id).0 same in
      let s : a.slot_id ≡ b.slot_id = (==_iff a.slot_id b.slot_id).0 (rw same at h) in
      λ i. record { page_id = p i; slot_id = s i }
]

pub rid_eq_ne : (a b : RecordId) → a ≢ b → rid_eq a b ≡ false
rid_eq_ne a b ne = elim (Bool-cases (rid_eq a b)) [
  | inl same ↦ absurd (ne (rid_eq_sound a b same))
  | inr other ↦ other
]

All-append_right :
    (P : EdgeRecord → Type 0) (before after : List EdgeRecord)
    → All P (before ++ after)
    → All P after
All-append_right P [] after h = h
All-append_right P (e ∷ before) after h = All-append_right P before after h.1

All-append_left :
    (P : EdgeRecord → Type 0) (before after : List EdgeRecord)
    → All P (before ++ after)
    → All P before
All-append_left P [] after h = tt
All-append_left P (e ∷ before) after h = (h.0, All-append_left P before after h.1)

module _ {F : Type 0} (files : TopologyFile F) {IsValid : F → Type 0}
    (laws : IsTopologyFile files IsValid) (direction : EdgeDirection) (file : F) (target : RecordId)
    (next : Option RecordId) (after : List EdgeRecord) (v : IsValid file) (fits : IsRidOption next)
    (tail : Segment files direction file next after none) where
  All-same :
      (file' : F) (edges : List EdgeRecord)
      → ((place : RecordId) → read_edge files file' place ≡ read_edge files file place)
      → All (λ (e : EdgeRecord). read_edge files file' e.id ≡ read_edge files file e.id) edges
  All-same file' [] same = tt
  All-same file' (e ∷ edges) same = (same e.id, All-same file' edges same)

  -- What the loop leaves of the edges it walks over: the chain without the target, and what it does
  -- not touch.
  abbrev IsUnlinked : F → Option RecordId → List EdgeRecord → Type 0
  IsUnlinked file' start before =
      Segment files direction file' start (relink direction next before ++ after) none
      × ((place : RecordId)
          → All (λ (e : EdgeRecord). place ≢ e.id) before
          → read_edge files file' place ≡ read_edge files file place)
      × ((place : RecordId) → read_node files file' place ≡ read_node files file place)
      × IsValid file'

  unlink_last :
      (file' : F) (edge : EdgeRecord)
      → read_edge files file edge.id ≡ ok edge
      → All (λ (e : EdgeRecord). edge.id ≢ e.id) after
      → write_edge files file (with_next direction next edge) ≡ ok file'
      → IsUnlinked file' (some edge.id) (edge ∷ [])
  unfolding relink
  unlink_last file' edge r apart w =
      let (self, others, nodes, valid) =
        write_edge_effect files laws file file' (with_next direction next edge) v
          (with_next-IsEdgeRecord direction next edge fits
            (read_edge-IsEdgeRecord files laws file edge.id edge v r))
          w in
      let eid = id-with_next direction next edge in
      let others' =
        λ (place : RecordId) (ne : edge.id ≢ place). others place (λ e. ne (sym eid ∙ e)) in
      (
        (
          ap some (sym eid),
          self,
          rw (next_edge-with_next direction next edge) (
              Segment-kept_edges files direction file file' next after none
                (All-apart files file file' edge.id after others' apart) tail),
        ),
        λ place ne. others' place (λ e. ne.0 (sym e)),
        nodes,
        valid,
      )

  unlink_effect :
      (fuel : ℕ) (start : Option RecordId) (edge : EdgeRecord) (before : List EdgeRecord)
      → Segment files direction file start (edge ∷ before) (some target)
      → All (λ (e : EdgeRecord). e.id ≢ target) before
      → IsDistinct ((edge ∷ before) ++ after)
      → length before < fuel
      → (r : Result F) × (unlink files fuel direction file start target next ≡ some r)
        × ((file' : F) → r ≡ ok file' → IsUnlinked file' start (edge ∷ before))
  unfolding unlink relink
  unlink_effect zero start edge before h absent distinct enough = elim enough [ ]
  unlink_effect (suc fuel) start edge [] (s, r, e) absent distinct enough = (
    write_edge files file (with_next direction next edge),
    rw s (rw (r, unlink) (rw e (rw (rid_eq_self target) refl))),
    λ file' w. rw s (unlink_last file' edge r distinct.0 w),
  )
  unlink_effect (suc fuel) start edge (follower ∷ before) (s, r, h) absent distinct enough =
      let (result, u, effect) =
        unlink_effect fuel (next_edge direction edge) follower before h absent.1 distinct.1
          (omega arith) in
      (
        result,
        rw s (rw (r, unlink) (rw h.0 (rw (rid_eq_ne follower.id target absent.0) u))),
        λ file' w.
            let (chain, others, nodes, valid) = effect file' w in
            (
              (
                s,
                others edge.id (All-append_left _ (follower ∷ before) after distinct.0) ∙ r,
                chain,
              ),
              λ place ne. others place ne.1,
              nodes,
              valid,
            ),
      )

  -- In a file of the contract's invariant, the list of a node runs without duplicates through the edges `before`, then the target, whose link is `next`, and
  -- from there through the edges `after`. With fuel for the edges before it the removal of the target
  -- ends, and where it meets no error the node's list is the former one without the target, and the
  -- invariant holds again.
  pub remove_from_list_effect :
      (fuel : ℕ) (node : NodeRecord) (before : List EdgeRecord)
      → read_node files file node.id ≡ ok node
      → Segment files direction file (first_edge direction node) before (some target)
      → All (λ (e : EdgeRecord). e.id ≢ target) before
      → IsDistinct (before ++ after)
      → length before ≤ fuel
      → (r : Result F) × (remove_from_list files fuel direction file node.id target next ≡ some r)
        × ((file' : F) (walk : ℕ)
            → r ≡ ok file'
            → length (before ++ after) < walk
            → (edges : List EdgeRecord) × (collect_edge_chain files walk file' node.id direction
                ≡ some (ok edges))
              × (ids edges ≡ ids (before ++ after))
              × IsValid file')
  unfolding remove_from_list relink
  remove_from_list_effect fuel node [] rn h absent distinct enough = (
    write_node files file (with_first direction next node),
    rw (rn, remove_from_list) (rw h (rw (rid_eq_self target) refl)),
    λ file' walk w long.
        let (self, others, edges, valid) =
          write_node_effect files laws file file' (with_first direction next node) v
            (with_first-IsNodeRecord direction next node fits
              (read_node-IsNodeRecord files laws file node.id node v rn))
            w in
        let nid = id-with_first direction next node in
        (
          after,
          collect_edge_chain-Segment files walk direction file' node.id
              (with_first direction next node) after (ap (read_node files file') (sym nid) ∙ self)
              (rw (first_edge-with_first direction next node) (
                Segment-kept_edges files direction file file' next after none
                  (All-same file' after edges) tail))
              long,
          refl,
          valid,
        ),
  )
  remove_from_list_effect fuel node (edge ∷ before) rn h absent distinct enough =
      let (result, u, effect) =
        unlink_effect fuel (first_edge direction node) edge before h absent.1 distinct
          (omega arith) in
      (
        result,
        rw (rn, remove_from_list) (rw h.0 (rw (rid_eq_ne edge.id target absent.0) u)),
        λ file' walk w long.
            let (chain, others, nodes, valid) = effect file' w in
            (
              relink direction next (edge ∷ before) ++ after,
              collect_edge_chain-Segment files walk direction file' node.id node
                  (relink direction next (edge ∷ before) ++ after) (nodes node.id ∙ rn) chain
                  (omega (arith, length-relink direction next (edge ∷ before) after)),
              ids-relink direction next (edge ∷ before) after,
              valid,
            ),
      )
