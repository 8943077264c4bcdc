-- ===== src/Pathfinding/Subgraph.antt =====
-- `connecting_subgraph`.
use chiffondb.Prelude.{
  ℕ, suc, ◌<◌, ◌≢◌, length, ap, ◌≡◌, refl, ◌∙◌, inl, inr, true, Bool-cases, Option, none, some,
  List, [], ◌∷◌, ◌++◌, All, Result, ok, err, panic,
}
use chiffondb.Storage.Ids.{RecordId, rid_eq}
use chiffondb.Storage.Topology.{and_run}
use chiffondb.Storage.Topology.Unlinks.{rid_eq_self}
use chiffondb.Pathfinding.{
  Neighbor, PathOptions, PathResult, ConnectingSubgraph, insert_rid, insert_all, add_path,
  shortest_path, connect_pairs, connect_nodes, connecting_subgraph,
}
use chiffondb.Pathfinding.Reached.{is_in}
use chiffondb.Pathfinding.Ends.{IsClosed, IsTotal, IsAnswer, shortest_path_effect}

is_in_append :
    (xs ys : List RecordId) (rid : RecordId) → is_in xs rid ≡ true → is_in (xs ++ ys) rid ≡ true
unfolding is_in
is_in_append [] ys rid h = absurd cc
is_in_append (x ∷ xs) ys rid h = elim (Bool-cases (rid_eq x rid)) [
  | inl same ↦ rw same refl
  | inr other ↦ rw other (is_in_append xs ys rid (rw other at h))
]

is_in_last : (xs : List RecordId) (rid : RecordId) → is_in (xs ++ (rid ∷ [])) rid ≡ true
unfolding is_in
is_in_last [] rid = rw (rid_eq_self rid) refl
is_in_last (x ∷ xs) rid = elim (Bool-cases (rid_eq x rid)) [
  | inl same ↦ rw same refl
  | inr other ↦ rw other (is_in_last xs rid)
]

is_in-insert_rid_self :
    (set : List RecordId) (rid : RecordId) → is_in (insert_rid set rid) rid ≡ true
unfolding insert_rid is_in
is_in-insert_rid_self set rid = elim (Bool-cases (is_in set rid)) [
  | inl old ↦ rw old old
  | inr new ↦ rw new (is_in_last set rid)
]

is_in-insert_rid :
    (set : List RecordId) (rid key : RecordId)
    → is_in set key ≡ true
    → is_in (insert_rid set rid) key ≡ true
unfolding insert_rid is_in
is_in-insert_rid set rid key h = elim (Bool-cases (is_in set rid)) [
  | inl old ↦ rw old h
  | inr new ↦ rw new (is_in_append set (rid ∷ []) key h)
]

is_in-insert_all :
    (rids set : List RecordId) (key : RecordId)
    → is_in set key ≡ true
    → is_in (insert_all set rids) key ≡ true
unfolding insert_all
is_in-insert_all [] set key h = h
is_in-insert_all (rid ∷ rids) set key h =
    is_in-insert_all rids (insert_rid set rid) key (is_in-insert_rid set rid key h)

is_in-add_path :
    (found : ConnectingSubgraph) (path : Option PathResult) (key : RecordId)
    → is_in found.node_rids key ≡ true
    → is_in (add_path found path).node_rids key ≡ true
unfolding add_path
is_in-add_path found none key h = h
is_in-add_path found (some path) key h = is_in-insert_all path.node_rids found.node_rids key h

and_run_inverse :
    {A B : Type 0} (m : Option (Result A)) (next : A → Option (Result B)) (b : B)
    → and_run m next ≡ some (ok b)
    → (a : A) × (m ≡ some (ok a)) × (next a ≡ some (ok b))
unfolding and_run
and_run_inverse (some (ok a)) next b h = (a, refl, h)
and_run_inverse (some (err e)) next b h = absurd cc
and_run_inverse (some panic) next b h = absurd cc
and_run_inverse none next b h = absurd cc

module _ (fuel : ℕ) (next : RecordId → Option (Result (List Neighbor)))
    (options : PathOptions) where
  connect_pairs_keeps :
      (rid : RecordId) (others : List RecordId) (found result : ConnectingSubgraph) (key : RecordId)
      → connect_pairs fuel next options rid others found ≡ some (ok result)
      → is_in found.node_rids key ≡ true
      → is_in result.node_rids key ≡ true
  unfolding connect_pairs
  connect_pairs_keeps rid [] found result key e h =
      let same : found ≡ result = cc e in rw (← same) h
  connect_pairs_keeps rid (other ∷ others) found result key e h =
      let (path, p, e') = and_run_inverse (shortest_path fuel next rid other options) _ result e in
      connect_pairs_keeps rid others (add_path found path) result key e'
        (is_in-add_path found path key h)

  connect_nodes_keeps :
      (rids : List RecordId) (found result : ConnectingSubgraph) (key : RecordId)
      → connect_nodes fuel next options rids found ≡ some (ok result)
      → is_in found.node_rids key ≡ true
      → is_in result.node_rids key ≡ true
  unfolding connect_nodes
  connect_nodes_keeps [] found result key e h = let same : found ≡ result = cc e in rw (← same) h
  connect_nodes_keeps (rid ∷ rids) found result key e h =
      let (found', p, e') =
        and_run_inverse (connect_pairs fuel next options rid rids found) _ result e in
      connect_nodes_keeps rids _ result key e' (
        is_in-insert_rid found'.node_rids rid key
          (connect_pairs_keeps rid rids found found' key p h))

  connect_nodes_covers :
      (rids : List RecordId) (found result : ConnectingSubgraph)
      → connect_nodes fuel next options rids found ≡ some (ok result)
      → All (λ (rid : RecordId). is_in result.node_rids rid ≡ true) rids
  unfolding connect_nodes
  connect_nodes_covers [] found result e = tt
  connect_nodes_covers (rid ∷ rids) found result e =
      let (found', p, e') =
        and_run_inverse (connect_pairs fuel next options rid rids found) _ result e in
      (
        connect_nodes_keeps rids _ result rid e' (is_in-insert_rid_self found'.node_rids rid),
        connect_nodes_covers rids _ result e',
      )

and_run_ends :
    {A B : Type 0} (m : Option (Result A)) (next : A → Option (Result B))
    → ((r : Result A) × (m ≡ some r) × (r ≢ panic))
    → ((a : A) → (r : Result B) × (next a ≡ some r) × (r ≢ panic))
    → (r : Result B) × (and_run m next ≡ some r) × (r ≢ panic)
unfolding and_run
and_run_ends m next (ok a, e, n) h = let (r, e', n') = h a in (r, rw e e', n')
and_run_ends m next (err reason, e, n) h = (err reason, rw e refl, λ q. cc)
and_run_ends m next (panic, e, n) h = absurd (n refl)

module _ (next : RecordId → Option (Result (List Neighbor))) (universe : List RecordId) (fuel : ℕ)
    (options : PathOptions) (closed : IsClosed next universe) (total : IsTotal next universe)
    (enough : suc (length universe) < fuel) where
  answer_ends :
      (from to : RecordId)
      → is_in universe from ≡ true
      → (r : Result (Option PathResult)) × (shortest_path fuel next from to options ≡ some r)
        × (r ≢ panic)
  answer_ends from to known =
      let (r, e, h) =
        shortest_path_effect next universe fuel from to options closed total known enough in
      (r, e, λ q. coe 0 1 (i. IsAnswer next universe from to (q i)) h)

  connect_pairs_ends :
      (rid : RecordId) (others : List RecordId) (found : ConnectingSubgraph)
      → is_in universe rid ≡ true
      → (r : Result ConnectingSubgraph) × (connect_pairs fuel next options rid others found
          ≡ some r)
        × (r ≢ panic)
  unfolding connect_pairs
  connect_pairs_ends rid [] found known = (ok found, refl, λ q. cc)
  connect_pairs_ends rid (other ∷ others) found known =
      and_run_ends (shortest_path fuel next rid other options) _ (answer_ends rid other known)
        (λ path. connect_pairs_ends rid others (add_path found path) known)

  connect_nodes_ends :
      (rids : List RecordId) (found : ConnectingSubgraph)
      → All (λ (rid : RecordId). is_in universe rid ≡ true) rids
      → (r : Result ConnectingSubgraph) × (connect_nodes fuel next options rids found ≡ some r)
        × (r ≢ panic)
  unfolding connect_nodes
  connect_nodes_ends [] found known = (ok found, refl, λ q. cc)
  connect_nodes_ends (rid ∷ rids) found (here, known) =
      and_run_ends (connect_pairs fuel next options rid rids found) _
        (connect_pairs_ends rid rids found here) (λ found'. connect_nodes_ends rids _ known)

  -- Nodes among finitely many, whose neighbours are among these and can be found without a panic or an
  -- endless walk, and with fuel for a search through all of them: the search for a connecting subgraph ends without a panic, and a subgraph that it
  -- returns holds every one of the nodes that were asked for.
  pub connecting_subgraph_effect :
      (rids : List RecordId)
      → All (λ (rid : RecordId). is_in universe rid ≡ true) rids
      → (r : Result ConnectingSubgraph) × (connecting_subgraph fuel next options rids ≡ some r)
        × (r ≢ panic)
        × ((result : ConnectingSubgraph)
            → r ≡ ok result
            → All (λ (rid : RecordId). is_in result.node_rids rid ≡ true) rids)
  unfolding connecting_subgraph
  connecting_subgraph_effect rids known =
      let (r, e, n) = connect_nodes_ends rids _ known in
      (r, e, n, λ result q. connect_nodes_covers fuel next options rids _ result (e ∙ ap some q))
