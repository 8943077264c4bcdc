-- ===== src/Pathfinding/Tree.antt =====
-- The tree of visited nodes, and the path that `reconstruct_path` reads off it.
use chiffondb.Prelude.{
  ℕ, zero, suc, ◌≤◌, ◌≡◌, ◌≢◌, inl, inr, refl, sym, ◌∙◌, Bool, true, false, ◌&&◌, Bool-cases,
  Option, none, some, List, [], ◌∷◌, length, any, Result, ok, arith,
}
use chiffondb.Storage.Ids.{RecordId, rid_eq}
use chiffondb.Storage.Topology.Unlinks.{rid_eq_self, rid_eq_sound, rid_eq_ne}
use chiffondb.Pathfinding.{
  Neighbor, Origin, Visited, PathResult, find_origin, contains_key, walk_back, reconstruct_path,
}

-- The pair is in the list of neighbours.
unfoldable pub is_among : RecordId → RecordId → List Neighbor → Bool
is_among edge node found = any (λ (n : Neighbor). rid_eq (n.0) edge && rid_eq (n.1) node) found

rid_eq_same : (a b : RecordId) → a ≡ b → rid_eq a b ≡ true
rid_eq_same a b e = rw e (rid_eq_self b)

module _ (next : RecordId → Option (Result (List Neighbor))) where
  -- The edge leads from the one node to the other.
  abbrev pub Leads : RecordId → RecordId → RecordId → Type 0
  Leads from edge to =
      (found : List Neighbor) × (next from ≡ some (ok found)) × (is_among edge to found ≡ true)

  -- The nodes from `from` to `to`, and the edges between them.
  pub data IsPath : RecordId → RecordId → List RecordId → List RecordId → Type 0 where
    stop : (rid : RecordId) → IsPath rid rid (rid ∷ []) []
    step :
        (from mid to edge : RecordId) (nodes edges : List RecordId)
        → Leads from edge mid
        → IsPath mid to nodes edges
        → IsPath from to (from ∷ nodes) (edge ∷ edges)

  -- Every visited node but the first was reached over an edge from an older one.
  pub data IsTree (start : RecordId) : Visited → Type 0 where
    root : IsTree start ((start, (none, none)) ∷ [])
    grow :
        (visited : Visited) (node edge parent : RecordId)
        → IsTree start visited
        → contains_key visited parent ≡ true
        → contains_key visited node ≡ false
        → Leads parent edge node
        → IsTree start ((node, (some edge, some parent)) ∷ visited)

  -- The keys of a tree lead to the same origins in a larger list.
  abbrev Agrees : Visited → Visited → Type 0
  Agrees visited whole =
      (key : RecordId)
      → contains_key visited key ≡ true
      → find_origin whole key ≡ find_origin visited key

  contains_ne :
      (visited : Visited) (key node : RecordId)
      → contains_key visited key ≡ true
      → contains_key visited node ≡ false
      → rid_eq node key ≡ false
  contains_ne visited key node has lacks =
      rid_eq_ne node key (λ e.
        let here : contains_key visited node ≡ true = rw e has in absurd cc (sym lacks ∙ here))

  Agrees-older :
      (visited whole : Visited) (node : RecordId) (origin : Origin)
      → contains_key visited node ≡ false
      → Agrees ((node, origin) ∷ visited) whole
      → Agrees visited whole
  unfolding contains_key find_origin
  Agrees-older visited whole node origin fresh agrees key has =
      let other = contains_ne visited key node has fresh in
      agrees key (rw other has) ∙ (rw other refl)

  only_root :
      (start current : RecordId)
      → contains_key ((start, (none, none)) ∷ []) current ≡ true
      → start ≡ current
  unfolding contains_key
  only_root start current has = elim (Bool-cases (rid_eq start current)) [
    | inl same ↦ rid_eq_sound start current same
    | inr other ↦ absurd cc (rw other at has)
  ]

  -- From a visited node other than the first the walk back over its tree ends in a path.
  walk_back_effect :
      (start to : RecordId) (visited whole : Visited) (current : RecordId)
      (nodes edges : List RecordId) (fuel : ℕ)
      → IsTree start visited
      → Agrees visited whole
      → contains_key visited current ≡ true
      → current ≢ start
      → IsPath current to (current ∷ nodes) edges
      → length visited ≤ fuel
      → (path : PathResult) × (walk_back fuel start current whole nodes edges ≡ some (ok path))
        × IsPath start to path.node_rids path.edge_rids
  unfolding contains_key find_origin walk_back
  walk_back_effect start to _ whole current nodes edges zero root agrees has ne rest enough =
      absurd (omega arith)
  walk_back_effect start to _ whole current nodes edges zero
        (grow visited node edge parent t old fresh leads) agrees has ne rest enough =
      absurd (omega arith)
  walk_back_effect start to _ whole current nodes edges (suc fuel) root agrees has ne rest enough =
      absurd (ne (sym (only_root start current has)))
  walk_back_effect start to _ whole current nodes edges (suc fuel)
        (grow visited node edge parent t old fresh leads) agrees has ne rest enough =
      let tail = Agrees-older visited whole node (some edge, some parent) fresh agrees in
      elim (Bool-cases (rid_eq node current)) [
        | inr other ↦
            let has' : contains_key visited current ≡ true = rw other at has in
            walk_back_effect start to visited whole current nodes edges (suc fuel) t tail has' ne
              rest (omega arith)
        | inl same ↦
            let e = rid_eq_sound node current same in
            let origin : find_origin whole current ≡ some (some edge, some parent) =
              agrees current has ∙ (rw same refl) in
            let longer : IsPath parent to (parent ∷ current ∷ nodes) (edge ∷ edges) =
              step parent current to edge (current ∷ nodes) edges
                (coe 0 1 (i. Leads parent edge (e i)) leads) rest in
            elim (Bool-cases (rid_eq parent start)) [
              | inl first ↦
                  let f = rid_eq_sound parent start first in
                  (
                    record { node_rids = start ∷ current ∷ nodes; edge_rids = edge ∷ edges },
                    rw (origin, walk_back) (rw first refl),
                    coe 0 1 (i. IsPath (f i) to (f i ∷ current ∷ nodes) (edge ∷ edges)) longer,
                  )
              | inr later ↦
                  let differs : parent ≢ start =
                    λ q. absurd cc (sym later ∙ rid_eq_same parent start q) in
                  let (path, w, h) =
                    walk_back_effect start to visited whole parent (current ∷ nodes) (edge ∷ edges)
                      fuel t tail old differs longer (omega arith) in
                  (path, rw (origin, walk_back) (rw later w), h)
            ]
      ]

  -- A tree that holds the target leads to a path from the start to it.
  pub reconstruct_path-IsTree :
      (start to : RecordId) (visited : Visited)
      → IsTree start visited
      → contains_key visited to ≡ true
      → to ≢ start
      → (path : PathResult) × (reconstruct_path start to visited ≡ some (ok path))
        × IsPath start to path.node_rids path.edge_rids
  unfolding reconstruct_path
  reconstruct_path-IsTree start to visited t has ne =
      walk_back_effect start to visited visited to [] [] (length visited) t (λ key h. refl) has ne
        (stop to) (omega arith)
