-- ===== src/Schema/Registry/Bijective.antt =====
-- The two directions of a registry agree.
use chiffondb.Prelude.{
  ℕ, ◌==◌, none, some, List, [], ◌∷◌, String, ◌≡◌, ◌≢◌, refl, ◌↔◌, arith, All, if◌then◌else◌,
}
use chiffondb.Schema.Names.{get, insert, get-insert}
use chiffondb.Schema.Registry.{
  get_id, insert_id, add_assignments, from_assignments, node_type_id, edge_type_id, node_type_name,
  edge_type_name,
}
use text.Mathlib.TextEquality.{eq_iff}

get_id-insert_id :
    (entries : List (ℕ × String)) (id : ℕ) (new : String) (other : ℕ)
    → get_id (insert_id entries id new) other
      ≡ (if id == other then some new else get_id entries other)
unfolding get_id insert_id
get_id-insert_id [] id new other = refl
get_id-insert_id ((key, name) ∷ entries) id new other =
    ground (arith, get_id-insert_id entries id new other)

-- The names are different from one another, and so are the numbers.
abbrev pub Differs : String × ℕ → String × ℕ → Type 0
Differs (name, id) (other, number) = (name ≢ other) × (id ≢ number)

abbrev pub Distinct : List (String × ℕ) → Type 0
Distinct [] = Unit
Distinct (a ∷ as') = All (Differs a) as' × Distinct as'

Agree : List (String × ℕ) → List (ℕ × String) → Type 0
Agree names ids =
    (name : String) (id : ℕ) → (get names name ≡ some id) ↔ (get_id ids id ≡ some name)

abbrev Unused : List (String × ℕ) → List (ℕ × String) → String × ℕ → Type 0
Unused names ids (name, id) = (get names name ≡ none) × (get_id ids id ≡ none)

module _ (names : List (String × ℕ)) (ids : List (ℕ × String)) (name : String) (id : ℕ) where
  Agree-insert :
      Agree names ids
      → Unused names ids (name, id)
      → Agree (insert names name id) (insert_id ids id name)
  unfolding Agree
  Agree-insert h free other number = ground (
    arith,
    get-insert names name id other,
    get_id-insert_id ids id name number,
    eq_iff name other,
    h other number,
  )

  Unused-insert :
      (as' : List (String × ℕ))
      → All (Differs (name, id)) as'
      → All (Unused names ids) as'
      → All (Unused (insert names name id) (insert_id ids id name)) as'
  Unused-insert [] d u = tt
  Unused-insert ((other, number) ∷ as') (d, ds) (u, us) = (
    ground (
      arith,
      get-insert names name id other,
      get_id-insert_id ids id name number,
      eq_iff name other,
    ),
    Unused-insert as' ds us,
  )

Agree-add_assignments :
    (as' : List (String × ℕ)) (names : List (String × ℕ)) (ids : List (ℕ × String))
    → Distinct as'
    → All (Unused names ids) as'
    → Agree names ids
    → Agree (add_assignments as' names ids).0 (add_assignments as' names ids).1
unfolding add_assignments
Agree-add_assignments [] names ids d u h = h
Agree-add_assignments ((name, id) ∷ as') names ids (d, ds) (u, us) h =
    Agree-add_assignments as' (insert names name id) (insert_id ids id name) ds
      (Unused-insert names ids name id as' d us) (Agree-insert names ids name id h u)

Unused-empty : (as' : List (String × ℕ)) → All (Unused [] []) as'
unfolding get get_id
Unused-empty [] = tt
Unused-empty ((name, id) ∷ as') = ((refl, refl), Unused-empty as')

Agree-empty : Agree [] []
unfolding Agree get get_id
Agree-empty name id = ground arith

add_assignments_keeps :
    (as' : List (String × ℕ)) (names : List (String × ℕ)) (ids : List (ℕ × String)) (name : String)
    (id : ℕ)
    → All (Differs (name, id)) as'
    → get names name ≡ some id
    → get (add_assignments as' names ids).0 name ≡ some id
unfolding add_assignments
add_assignments_keeps [] names ids name id d h = h
add_assignments_keeps ((other, number) ∷ as') names ids name id (d, ds) h =
    add_assignments_keeps as' (insert names other number) (insert_id ids number other) name id ds
      (ground (arith, get-insert names other number name, eq_iff other name))

-- A type has the number that it was assigned.
abbrev pub Assigned : List (String × ℕ) → String × ℕ → Type 0
Assigned names (name, id) = get names name ≡ some id

numbers_kept :
    (as' : List (String × ℕ)) (names : List (String × ℕ)) (ids : List (ℕ × String))
    → Distinct as'
    → All (Assigned (add_assignments as' names ids).0) as'
unfolding add_assignments
numbers_kept [] names ids d = tt
numbers_kept ((name, id) ∷ as') names ids (d, ds) = (
  add_assignments_keeps as' (insert names name id) (insert_id ids id name) name id d
      (ground (arith, get-insert names name id name, eq_iff name name)),
  numbers_kept as' (insert names name id) (insert_id ids id name) ds,
)

-- Assignments of different names to different numbers give a registry in which a node type's name
-- has a number exactly where that number has that name, and likewise for the edge types; and every
-- assigned type has its number.
pub registry_agrees :
    (nodes edges : List (String × ℕ)) (name : String) (id : ℕ)
    → Distinct nodes
    → Distinct edges
    → ((node_type_id (from_assignments nodes edges) name ≡ some id)
        ↔ (node_type_name (from_assignments nodes edges) id ≡ some name))
      × ((edge_type_id (from_assignments nodes edges) name ≡ some id)
          ↔ (edge_type_name (from_assignments nodes edges) id ≡ some name))
      × All (Assigned (from_assignments nodes edges).node_name_to_id) nodes
      × All (Assigned (from_assignments nodes edges).edge_name_to_id) edges
unfolding Agree from_assignments node_type_id node_type_name edge_type_id edge_type_name
registry_agrees nodes edges name id dn de = (
  Agree-add_assignments nodes [] [] dn (Unused-empty nodes) Agree-empty name id,
  Agree-add_assignments edges [] [] de (Unused-empty edges) Agree-empty name id,
  numbers_kept nodes [] [] dn,
  numbers_kept edges [] [] de,
)
