-- ===== src/Storage/Topology/Live.antt =====
-- `live_node_rids` and `live_edge_rids` against `node_slot_used` and `edge_slot_used`.
use chiffondb.Prelude.{
  ℕ, zero, suc, ◌+◌, ◌<◌, ◌≤◌, ◌≡◌, ◌⊎◌, inl, inr, refl, sym, ap, ◌≢◌, ◌∙◌, Bool, false, ◌||◌, ◌&&◌,
  Bool-cases, List, [], ◌∷◌, ◌++◌, any, ok, ltb, leb, leb→le, leb_false→lt, ◌==◌, ==_iff, arith,
}
use chiffondb.Storage.Ids.{RecordId, rid_eq}
use chiffondb.Storage.Page.{Page, is_used}
use chiffondb.Storage.Topology.{
  TopologyFile, TopologyKind, node_kind, edge_kind, live_slots, load_page, live_from,
  live_node_rids, live_edge_rids, slot_used, node_slot_used, edge_slot_used, used_or_false,
}
use chiffondb.Storage.Topology.Records.{>>=_inverse}

any_append :
    {A : Type 0} (p : A → Bool) (xs ys : List A) → any p (xs ++ ys) ≡ (any p xs || any p ys)
any_append p [] ys = refl
any_append p (x ∷ xs) ys = ground (arith, any_append p xs ys)

-- The slots listed from `slot` on, as a test on ids.
any-live_slots :
    (page : Page) (logical n slot : ℕ) (rid : RecordId)
    → any (rid_eq rid) (live_slots page logical n slot) ≡ (
        (rid.page_id == logical)
        && (leb slot rid.slot_id && ltb rid.slot_id (slot + n) && is_used page rid.slot_id))
unfolding live_slots
any-live_slots page logical zero slot rid = ground arith
any-live_slots page logical (suc n) slot rid = elim (Bool-cases (rid.slot_id == slot)) [
  | inl same ↦
      let e : rid.slot_id ≡ slot = (==_iff rid.slot_id slot).0 same in
      ground (arith, any-live_slots page logical n (slot + 1) rid, ap (is_used page) e)
  | inr other ↦
      let ne : rid.slot_id ≢ slot = λ e. absurd cc (sym other ∙ (==_iff rid.slot_id slot).1 e) in
      ground (arith, any-live_slots page logical n (slot + 1) rid)
]

unused : (page : Page) (slot : ℕ) → page.slot_count ≤ slot → is_used page slot ≡ false
unfolding is_used
unused page slot h = ground arith

any-live_page :
    (page : Page) (logical : ℕ) (rid : RecordId)
    → any (rid_eq rid) (live_slots page logical page.slot_count 0)
      ≡ ((rid.page_id == logical) && is_used page rid.slot_id)
any-live_page page logical rid =
    ground (arith, any-live_slots page logical page.slot_count 0 rid, unused page rid.slot_id)

module _ {F : Type 0} (files : TopologyFile F) (kind : TopologyKind) (file : F) where
  live_from_step :
      (n logical : ℕ) (rids : List RecordId)
      → live_from files kind file (suc n) logical ≡ ok rids
      → (page : Page) × (load_page files kind file logical ≡ ok page)
        × (rest : List RecordId) × (live_from files kind file n (logical + 1) ≡ ok rest)
        × ((rid : RecordId)
            → any (rid_eq rid) rids
              ≡ (((rid.page_id == logical) && is_used page rid.slot_id) || any (rid_eq rid) rest))
  unfolding live_from
  live_from_step n logical rids h =
      let (page, l, h1) = >>=_inverse (load_page files kind file logical) _ rids h in
      let (rest, r, h2) = >>=_inverse (live_from files kind file n (logical + 1)) _ rids h1 in
      let e : live_slots page logical page.slot_count 0 ++ rest ≡ rids = cc h2 in
      (
        page,
        l,
        rest,
        r,
        λ rid. rw (← e) (
            any_append (rid_eq rid) (live_slots page logical page.slot_count 0) rest
            ∙ rw (any-live_page page logical rid) refl),
      )

  live_from_outside :
      (n logical : ℕ) (rids : List RecordId) (rid : RecordId)
      → live_from files kind file n logical ≡ ok rids
      → (rid.page_id < logical) ⊎ (logical + n ≤ rid.page_id)
      → any (rid_eq rid) rids ≡ false
  unfolding live_from
  live_from_outside zero logical rids rid h outside = let e : [] ≡ rids = cc h in rw (← e) refl
  live_from_outside (suc n) logical rids rid h outside =
      let (page, l, rest, r, found) = live_from_step n logical rids h in
      let below = live_from_outside n (logical + 1) rest rid r in found rid ∙ ground (arith, below)

  live_from_inside :
      (n logical : ℕ) (rids : List RecordId) (rid : RecordId)
      → live_from files kind file n logical ≡ ok rids
      → logical ≤ rid.page_id
      → rid.page_id < logical + n
      → used_or_false (load_page files kind file rid.page_id) rid.slot_id
        ≡ ok (any (rid_eq rid) rids)
  unfolding used_or_false
  live_from_inside zero logical rids rid h low high = absurd (omega arith)
  live_from_inside (suc n) logical rids rid h low high =
      let (page, l, rest, r, found) = live_from_step n logical rids h in
      elim (Bool-cases (rid.page_id == logical)) [
        | inl here ↦
            let p : rid.page_id ≡ logical = (==_iff rid.page_id logical).0 here in
            let l' : load_page files kind file rid.page_id ≡ ok page = rw p l in
            let beyond = live_from_outside n (logical + 1) rest rid r (inl (omega arith)) in
            rw l' (ap ok (sym (found rid ∙ ground (arith, beyond, here))))
        | inr later ↦
            let ne : rid.page_id ≢ logical =
              λ e. absurd cc (sym later ∙ (==_iff rid.page_id logical).1 e) in
            live_from_inside n (logical + 1) rest rid r (omega arith) (omega arith)
            ∙ ap ok (sym (found rid ∙ (rw later refl)))
      ]

  live_from-slot_used :
      (rids : List RecordId) (rid : RecordId)
      → live_from files kind file (files.page_count kind file) 0 ≡ ok rids
      → slot_used files kind file rid ≡ ok (any (rid_eq rid) rids)
  unfolding slot_used
  live_from-slot_used rids rid h =
      elim (Bool-cases (leb (files.page_count kind file) rid.page_id)) [
        | inl out ↦ rw out (
            ap ok (
              sym (
                live_from_outside _ 0 rids rid h
                  (inr (omega (arith, leb→le (files.page_count kind file) rid.page_id out))))))
        | inr within ↦ rw within (
            live_from_inside _ 0 rids rid h (omega arith)
              (omega (arith, leb_false→lt (files.page_count kind file) rid.page_id within)))
      ]

module _ {F : Type 0} (files : TopologyFile F) (file : F) (rids : List RecordId)
    (rid : RecordId) where
  -- Where the live nodes are listed without an error, any record id is in the list just where the
  -- test of its slot says that it is used; and the test meets no error.
  pub live_node_rids-node_slot_used :
      live_node_rids files file ≡ ok rids
      → node_slot_used files file rid ≡ ok (any (rid_eq rid) rids)
  unfolding live_node_rids
  live_node_rids-node_slot_used h = live_from-slot_used files node_kind file rids rid h

  -- The same of the live edges.
  pub live_edge_rids-edge_slot_used :
      live_edge_rids files file ≡ ok rids
      → edge_slot_used files file rid ≡ ok (any (rid_eq rid) rids)
  unfolding live_edge_rids
  live_edge_rids-edge_slot_used h = live_from-slot_used files edge_kind file rids rid h
