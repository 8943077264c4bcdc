-- ===== src/Schema/Names.antt =====
-- Sets of names and maps keyed by names, as schema/*.rs use them: a `HashSet<&str>` is the list of
-- its names, a `HashMap<&str, V>` an association list with distinct keys.
use chiffondb.Prelude.{
  Bool, true, false, ◌||◌, Option, none, some, List, [], ◌∷◌, String, ◌≡◌, refl, ◌↔◌, ◌⊎◌, arith,
  if◌then◌else◌,
}
use text.Mathlib.Text.{◌==◌}
use text.Mathlib.TextEquality.{eq_iff}

pub OneOf : String → List String → Type 0
OneOf name [] = ⊥
OneOf name (n ∷ ns) = (n ≡ name) ⊎ OneOf name ns

-- `HashSet::contains`
unfoldable pub contains : List String → String → Bool
contains [] name = false
contains (n ∷ ns) name = n == name || contains ns name

pub contains_iff : (ns : List String) (name : String) → (contains ns name ≡ true) ↔ OneOf name ns
unfolding contains OneOf
contains_iff [] name = ground arith
contains_iff (n ∷ ns) name = ground (arith, eq_iff n name, contains_iff ns name)

module _ {ℓ} {V : Type ℓ} where
  -- `HashMap::get`
  unfoldable pub get : List (String × V) → String → Option V
  get [] name = none
  get ((key, value) ∷ entries) name = if key == name then some value else get entries name

  -- `HashMap::insert`: a later value of a key replaces the earlier one.
  unfoldable pub insert : List (String × V) → String → V → List (String × V)
  insert [] name new = (name, new) ∷ []
  insert ((key, value) ∷ entries) name new =
      let rest = insert entries name new in
      if key == name then (name, new) ∷ entries else (key, value) ∷ rest

  pub get-insert :
      (entries : List (String × V)) (name : String) (new : V) (other : String)
      → get (insert entries name new) other
        ≡ (if name == other then some new else get entries other)
  unfolding get insert
  get-insert [] name new other = refl
  get-insert ((key, value) ∷ entries) name new other = ground (
    arith,
    eq_iff name other,
    eq_iff key name,
    eq_iff key other,
    get-insert entries name new other,
  )
