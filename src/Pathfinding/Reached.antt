-- ===== src/Pathfinding/Reached.antt =====
-- The loop over the neighbours of a node: it keeps the tree, and every node that it queues is one
-- fewer that is not visited.
use chiffondb.Prelude.{
  ℕ, suc, ◌+◌, ◌<◌, ◌≤◌, ◌≡◌, refl, sym, inl, inr, Bool, true, false, Bool-cases, Option, some,
  List, [], ◌∷◌, ◌++◌, length, length-append, All, All-append, Result, any, if◌then◌else◌, arith,
}
use chiffondb.Storage.Ids.{RecordId, rid_eq}
use chiffondb.Storage.Topology.Unlinks.{rid_eq_self, rid_eq_sound}
use chiffondb.Pathfinding.{
  Neighbor, Origin, Visited, Expanded, reached, queued, contains_key, expand,
}
use chiffondb.Pathfinding.Tree.{Leads, IsTree, grow, is_among}

unfoldable pub is_in : List RecordId → RecordId → Bool
is_in rids rid = any (λ (r : RecordId). rid_eq r rid) rids

-- How many of the nodes are not visited.
unfoldable pub unvisited : List RecordId → Visited → ℕ
unvisited [] visited = 0
unvisited (rid ∷ rids) visited =
    let rest = unvisited rids visited in if contains_key visited rid then rest else suc rest

contains_key_newer :
    (visited : Visited) (node key : RecordId) (origin : Origin)
    → contains_key visited key ≡ true
    → contains_key ((node, origin) ∷ visited) key ≡ true
unfolding contains_key
contains_key_newer visited node key origin has = ground arith

contains_key_newest :
    (visited : Visited) (node : RecordId) (origin : Origin)
    → contains_key ((node, origin) ∷ visited) node ≡ true
unfolding contains_key
contains_key_newest visited node origin = rw (rid_eq_self node) refl

unvisited_newer :
    (rids : List RecordId) (visited : Visited) (node : RecordId) (origin : Origin)
    → unvisited rids ((node, origin) ∷ visited) ≤ unvisited rids visited
unfolding unvisited
unvisited_newer [] visited node origin = omega arith
unvisited_newer (rid ∷ rids) visited node origin =
    let less = unvisited_newer rids visited node origin in
    elim (Bool-cases (contains_key visited rid)) [
      | inl old ↦ rw old (rw (contains_key_newer visited node rid origin old) less)
      | inr new ↦ elim (Bool-cases (contains_key ((node, origin) ∷ visited) rid)) [
        | inl now ↦ rw new (rw now (omega arith))
        | inr still ↦ rw new (rw still (omega arith))
      ]
    ]

-- A node that is visited for the first time is one fewer.
unvisited_fresh :
    (rids : List RecordId) (visited : Visited) (node : RecordId) (origin : Origin)
    → is_in rids node ≡ true
    → contains_key visited node ≡ false
    → unvisited rids ((node, origin) ∷ visited) < unvisited rids visited
unfolding unvisited is_in
unvisited_fresh [] visited node origin has fresh = absurd cc
unvisited_fresh (rid ∷ rids) visited node origin has fresh = elim (Bool-cases (rid_eq rid node)) [
  | inl same ↦
      let e = rid_eq_sound rid node same in
      let less = unvisited_newer rids visited node origin in
      let old : contains_key visited rid ≡ false = rw e fresh in
      let now : contains_key ((node, origin) ∷ visited) rid ≡ true =
        rw e (contains_key_newest visited node origin) in
      rw old (rw now (omega arith))
  | inr other ↦
      let less = unvisited_fresh rids visited node origin (rw other at has) fresh in
      elim (Bool-cases (contains_key visited rid)) [
        | inl old ↦ rw old (rw (contains_key_newer visited node rid origin old) less)
        | inr new ↦ elim (Bool-cases (contains_key ((node, origin) ∷ visited) rid)) [
          | inl now ↦ rw new (rw now (omega arith))
          | inr still ↦ rw new (rw still (omega arith))
        ]
      ]
]

-- The queued nodes are visited, and are among the nodes that there are.
abbrev pub AllVisited : List RecordId → Visited → List (RecordId × ℕ) → Type 0
AllVisited rids visited queue =
    All (λ (e : RecordId × ℕ). (contains_key visited (e.0) ≡ true) × (is_in rids (e.0) ≡ true))
      queue

AllVisited-newer :
    (rids : List RecordId) (visited : Visited) (node : RecordId) (origin : Origin)
    (queue : List (RecordId × ℕ))
    → AllVisited rids visited queue
    → AllVisited rids ((node, origin) ∷ visited) queue
AllVisited-newer rids visited node origin [] h = tt
AllVisited-newer rids visited node origin (e ∷ queue) ((h, k), hs) = (
  (contains_key_newer visited node (e.0) origin h, k),
  AllVisited-newer rids visited node origin queue hs,
)

module _ (next : RecordId → Option (Result (List Neighbor))) (start target current : RecordId)
    (depth : ℕ) (rids : List RecordId) where
  -- What holds of the state after the neighbours of one node: the tree is kept; where all of them are
  -- queued, so are only visited nodes, and the nodes queued or not visited are no more than before.
  abbrev pub IsExpanded : ℕ → Expanded → Type 0
  IsExpanded bound (reached visited) =
      IsTree next start visited × (contains_key visited target ≡ true)
  IsExpanded bound (queued visited queue) =
      IsTree next start visited
      × AllVisited rids visited queue
      × (length queue + unvisited rids visited ≤ bound)

  pub expand_effect :
      (found : List Neighbor) (visited : Visited) (queue : List (RecordId × ℕ)) (bound : ℕ)
      → IsTree next start visited
      → contains_key visited current ≡ true
      → All (λ (n : Neighbor). Leads next current (n.0) (n.1) × (is_in rids (n.1) ≡ true)) found
      → AllVisited rids visited queue
      → length queue + unvisited rids visited ≤ bound
      → IsExpanded bound (expand target current depth found visited queue)
  unfolding expand
  expand_effect [] visited queue bound t has leads keys less = (t, keys, less)
  expand_effect ((edge, node) ∷ found) visited queue bound t has ((lead, within), leads) keys less =
      elim (Bool-cases (contains_key visited node)) [
        | inl old ↦ rw (old, expand) (expand_effect found visited queue bound t has leads keys less)
        | inr new ↦
            let taller = grow visited node edge current t has new lead in
            let here = contains_key_newest visited node (some edge, some current) in
            elim (Bool-cases (rid_eq node target)) [
              | inl goal ↦
                  rw (new, expand) (rw goal (taller, rw (sym (rid_eq_sound node target goal)) here))
              | inr other ↦
                  let fewer =
                    unvisited_fresh rids visited node (some edge, some current) within new in
                  rw (new, expand)
                    (rw other (
                      expand_effect found ((node, (some edge, some current)) ∷ visited)
                        (queue ++ ((node, depth + 1) ∷ [])) bound taller
                        (contains_key_newer visited node current (some edge, some current) has)
                        leads
                        (All-append _ queue ((node, depth + 1) ∷ [])
                          (AllVisited-newer rids visited node (some edge, some current) queue keys)
                          ((here, within), tt))
                        (omega (arith, length-append queue ((node, depth + 1) ∷ []), fewer, less))))
            ]
      ]

-- Every neighbour in a list is among the list.
pub All-is_among :
    (found whole : List Neighbor)
    → ((edge node : RecordId) → is_among edge node found ≡ true → is_among edge node whole ≡ true)
    → All (λ (n : Neighbor). is_among (n.0) (n.1) whole ≡ true) found
unfolding is_among
All-is_among [] whole h = tt
All-is_among ((edge, node) ∷ found) whole h = (
  h edge node (rw (rid_eq_self edge) (rw (rid_eq_self node) refl)),
  All-is_among found whole (λ e n a. h e n (ground arith)),
)
