-- ===== src/Traversal/PropertyPath/Reached.antt =====
-- Which value a path resolves to.
use chiffondb.Prelude.{
  Option, none, some, Option-cases, List, [], ◌∷◌, String, ◌≡◌, refl, ◌↔◌, ◌⊎◌, inl, inr,
}
use chiffondb.Schema.Names.{get}
use chiffondb.Schema.Values.{Value, object, Members}
use chiffondb.Traversal.PropertyPath.{
  flat, path, as_object, find_member, get_segment, walk, resolve,
}

module _ {N : Type 0} where
  -- From a value the segments lead, object by object, to another value.
  pub data Reaches : List String → Value N → Value N → Type 0 where
    arrived : (v : Value N) → Reaches [] v v
    inside :
        (segment : String) (rest : List String) (entries : Members N) (v w : Value N)
        → find_member entries segment ≡ some v
        → Reaches rest v w
        → Reaches (segment ∷ rest) (object entries) w

  get_segment_cases :
      (v : Value N) (segment : String)
      → (get_segment v segment ≡ none)
        ⊎ ((entries : Members N) × (next : Value N) × (v ≡ object entries)
            × (find_member entries segment ≡ some next)
            × (get_segment v segment ≡ some next))
  unfolding get_segment as_object
  get_segment_cases (object entries) segment = elim (Option-cases (find_member entries segment)) [
    | inl missing ↦ inl missing
    | inr (next, found) ↦ inr (entries, next, refl, found, found)
  ]
  get_segment_cases v segment = inl refl

  walk_sound :
      (segments : List String) (v w : Value N) → walk segments v ≡ some w → Reaches segments v w
  unfolding walk
  walk_sound [] v w h = let e : v ≡ w = cc in rw (← e) (arrived v)
  walk_sound (segment ∷ rest) v w h = elim (get_segment_cases v segment) [
    | inl missing ↦ absurd cc (rw (walk, missing) at h)
    | inr (entries, next, e, found, seen) ↦
        rw e
          (inside segment rest entries next w found (walk_sound rest next w (rw (walk, seen) at h)))
  ]

  walk_complete :
      (segments : List String) (v w : Value N) → Reaches segments v w → walk segments v ≡ some w
  unfolding walk get_segment as_object
  walk_complete [] v w (arrived _) = refl
  walk_complete (segment ∷ rest) (object entries) w (inside _ _ _ v _ found r) =
      rw (walk, get_segment, as_object, found) (walk_complete rest v w r)
  walk_complete segments v w d = elim d [ ]

  resolve_flat :
      (key : String) (props : List (String × Value N))
      → resolve (flat key) props ≡ resolve (path (key ∷ [])) props
  unfolding resolve walk
  resolve_flat key props = go (get props key)
    where
      go : (o : Option (Value N)) → o ≡ elim o [ none ↦ none | some current ↦ walk [] current ]
      go none = refl
      go (some v) = refl

  -- A path resolves to a value exactly where its first segment is a property and the other segments
  -- lead from there, object by object, to the value; a flat key is the path of one segment, and the
  -- empty path resolves to nothing.
  pub resolve_iff :
      (first : String) (rest : List String) (props : List (String × Value N)) (w : Value N)
      → ((resolve (path (first ∷ rest)) props ≡ some w)
          ↔ ((v : Value N) × (get props first ≡ some v) × Reaches rest v w))
        × (resolve (flat first) props ≡ resolve (path (first ∷ [])) props)
        × (resolve {N = N} (path []) props ≡ none)
  unfolding resolve walk
  resolve_iff first rest props w = ((to, from), resolve_flat first props, refl)
    where
      to :
          resolve (path (first ∷ rest)) props ≡ some w
          → (v : Value N) × (get props first ≡ some v) × Reaches rest v w
      to h = elim (Option-cases (get props first)) [
        | inl missing ↦ absurd cc (rw (resolve, missing) at h)
        | inr (v, found) ↦ (v, found, walk_sound rest v w (rw (resolve, found) at h))
      ]

      from :
          (v : Value N) × (get props first ≡ some v) × Reaches rest v w
          → resolve (path (first ∷ rest)) props ≡ some w
      from (v, found, r) = rw (resolve, found) (walk_complete rest v w r)
