-- ===== src/Pathfinding/Ends.antt =====
-- `shortest_path` ends, and the path that it returns is one.
use chiffondb.Prelude.{
  ℕ, zero, suc, ◌+◌, ◌<◌, ◌≤◌, ◌≡◌, ◌≢◌, refl, sym, ◌∙◌, inl, inr, ◌⊎◌, true, Bool-cases, Option,
  none, some, List, [], ◌∷◌, length, All, Result, ok, err, panic, leb, arith, GraphError,
}
use chiffondb.Storage.Ids.{RecordId, rid_eq}
use chiffondb.Storage.Topology.Unlinks.{rid_eq_self, rid_eq_sound}
use chiffondb.Pathfinding.{
  Neighbor, Visited, Expanded, PathResult, PathOptions, reached, queued, contains_key, expand,
  search, shortest_path, reconstruct_path, wrap_path,
}
use chiffondb.Pathfinding.Tree.{
  Leads, IsPath, stop, IsTree, root, is_among, reconstruct_path-IsTree,
}
use chiffondb.Pathfinding.Reached.{
  is_in, unvisited, AllVisited, IsExpanded, expand_effect, All-is_among,
}

outcome_cases :
    {A : Type 0} (m : Option (Result A))
    → (m ≡ none)
      ⊎ ((m ≡ some panic)
          ⊎ (((e : GraphError) × (m ≡ some (err e))) ⊎ ((a : A) × (m ≡ some (ok a)))))
outcome_cases none = inl refl
outcome_cases (some panic) = inr (inl refl)
outcome_cases (some (err e)) = inr (inr (inl (e, refl)))
outcome_cases (some (ok a)) = inr (inr (inr (a, refl)))

Expanded-cases :
    (x : Expanded)
    → ((v : Visited) × (x ≡ reached v))
      ⊎ ((v : Visited) × (q : List (RecordId × ℕ)) × (x ≡ queued v q))
Expanded-cases (reached v) = inl (v, refl)
Expanded-cases (queued v q) = inr (v, q, refl)

module _ (next : RecordId → Option (Result (List Neighbor))) (rids : List RecordId) where
  -- Every neighbour of a node of `rids` is one of `rids`.
  abbrev pub IsClosed : Type 0
  IsClosed =
      (node : RecordId) (found : List Neighbor)
      → is_in rids node ≡ true
      → next node ≡ some (ok found)
      → All (λ (n : Neighbor). is_in rids (n.1) ≡ true) found

  -- The walks over the lists of a node's edges end, and none panics.
  abbrev pub IsTotal : Type 0
  IsTotal =
      (node : RecordId) → is_in rids node ≡ true → (next node ≢ none) × (next node ≢ some panic)

  -- A result that is an error, a missing path, or a path from `start` to `target`.
  abbrev pub IsAnswer : RecordId → RecordId → Result (Option PathResult) → Type 0
  IsAnswer start target (ok none) = Unit
  IsAnswer start target (ok (some path)) = IsPath next start target path.node_rids path.edge_rids
  IsAnswer start target (err e) = Unit
  IsAnswer start target panic = ⊥

  module _ (closed : IsClosed) (total : IsTotal) (start target : RecordId) (max_depth : ℕ)
      (differ : target ≢ start) where
    both :
        (current : RecordId) (found whole : List Neighbor)
        → next current ≡ some (ok whole)
        → All (λ (n : Neighbor). is_among (n.0) (n.1) whole ≡ true) found
        → All (λ (n : Neighbor). is_in rids (n.1) ≡ true) found
        → All (λ (n : Neighbor). Leads next current (n.0) (n.1) × (is_in rids (n.1) ≡ true)) found
    both current [] whole e h k = tt
    both current (n ∷ found) whole e (h, hs) (k, ks) =
        (((whole, e, h), k), both current found whole e hs ks)

    search_reached :
        (visited : Visited)
        → IsTree next start visited
        → contains_key visited target ≡ true
        → (r : Result (Option PathResult)) × (wrap_path (reconstruct_path start target visited)
            ≡ some r)
          × IsAnswer start target r
    unfolding wrap_path
    search_reached visited t has =
        let (path, e, h) = reconstruct_path-IsTree next start target visited t has differ in
        (ok (some path), rw e refl, h)

    search_effect :
        (fuel : ℕ) (visited : Visited) (queue : List (RecordId × ℕ))
        → IsTree next start visited
        → AllVisited rids visited queue
        → length queue + unvisited rids visited < fuel
        → (r : Result (Option PathResult)) × (search next start target max_depth fuel visited queue
            ≡ some r)
          × IsAnswer start target r
    unfolding search
    search_effect zero visited queue t keys enough = absurd (omega arith)
    search_effect (suc fuel) visited [] t keys enough = (ok none, refl, tt)
    search_effect (suc fuel) visited ((current, depth) ∷ queue) t ((has, known), keys) enough =
        elim (Bool-cases (leb max_depth depth)) [
          | inl deep ↦
              let (r, e, h) = search_effect fuel visited queue t keys (omega arith) in
              (r, rw (deep, search) e, h)
          | inr within ↦ elim (outcome_cases (next current)) [
            | inl lost ↦ absurd ((total current known).0 lost)
            | inr (inl aborts) ↦ absurd ((total current known).1 aborts)
            | inr (inr (inl (reason, e))) ↦ (err reason, rw (within, search) (rw e refl), tt)
            | inr (inr (inr (found, e))) ↦
                let leads =
                  both current found found e (All-is_among found found (λ edge node h. h))
                    (closed current found known e) in
                let state =
                  expand_effect next start target current depth rids found visited queue
                    (length queue + unvisited rids visited) t has leads keys (omega arith) in
                elim (Expanded-cases (expand target current depth found visited queue)) [
                  | inl (visited', q) ↦
                      let (t', has') : IsExpanded next start target current depth rids
                          (length queue + unvisited rids visited) (reached visited') =
                        coe 0 1
                          (i.
                            IsExpanded next start target current depth rids
                              (length queue + unvisited rids visited) (q i))
                          state in
                      let (r, w, h) = search_reached visited' t' has' in
                      (r, rw (within, search) (rw e (rw q w)), h)
                  | inr (visited', queue', q) ↦
                      let (t', keys', less) : IsExpanded next start target current depth rids
                          (length queue + unvisited rids visited) (queued visited' queue') =
                        coe 0 1
                          (i.
                            IsExpanded next start target current depth rids
                              (length queue + unvisited rids visited) (q i))
                          state in
                      let (r, w, h) = search_effect fuel visited' queue' t' keys' (omega arith) in
                      (r, rw (within, search) (rw e (rw q w)), h)
                ]
          ]
        ]

  unvisited_bound : (all : List RecordId) (visited : Visited) → unvisited all visited ≤ length all
  unfolding unvisited
  unvisited_bound [] visited = omega arith
  unvisited_bound (rid ∷ all) visited =
      let less = unvisited_bound all visited in
      elim (Bool-cases (contains_key visited rid)) [
        | inl old ↦ rw old (omega arith)
        | inr new ↦ rw new (omega arith)
      ]

  -- Where the start is one of finitely many nodes, every neighbour of one of these is one of them, and
  -- the walks over their edges end without a panic, the search ends with more steps than there are nodes and one more; it does not
  -- panic, and a path that it returns leads from the one node to the other over neighbouring edges.
  pub shortest_path_effect :
      (fuel : ℕ) (from to : RecordId) (options : PathOptions)
      → IsClosed
      → IsTotal
      → is_in rids from ≡ true
      → suc (length rids) < fuel
      → (r : Result (Option PathResult)) × (shortest_path fuel next from to options ≡ some r)
        × IsAnswer from to r
  unfolding shortest_path contains_key
  shortest_path_effect fuel from to options closed total known enough =
      elim (Bool-cases (rid_eq from to)) [
        | inl same ↦
            let e = rid_eq_sound from to same in
            (
              ok (some (record { node_rids = from ∷ []; edge_rids = [] })),
              rw same refl,
              coe 0 1 (i. IsPath next from (e i) (from ∷ []) []) (stop from),
            )
        | inr other ↦
            let differ : to ≢ from = λ e.
              let self : rid_eq from to ≡ true = rw e (rid_eq_self from) in
              absurd cc (sym other ∙ self) in
            let bound = unvisited_bound rids ((from, (none, none)) ∷ []) in
            let (r, w, h) =
              search_effect closed total from to options.max_depth differ fuel
                ((from, (none, none)) ∷ []) ((from, 0) ∷ []) root
                ((rw (rid_eq_self from) refl, known), tt) (omega arith) in
            (r, rw other w, h)
      ]
