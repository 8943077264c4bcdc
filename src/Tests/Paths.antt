-- ===== src/Tests/Paths.antt =====
-- traversal/command.rs: a path into a nested value.
use chiffondb.Prelude.{ℕ, none, some, List, [], ◌∷◌, String, ◌≡◌, refl, ◌↔◌}
use chiffondb.Schema.Names.{get}
use chiffondb.Schema.Values.{Value, str, object, empty_object, member}
use chiffondb.Traversal.PropertyPath.{flat, path, resolve}
use chiffondb.Traversal.PropertyPath
use chiffondb.Traversal.PropertyPath.Reached
use chiffondb.Traversal.PropertyPath.Reached.{Reaches}

abbrev props : List (String × Value ℕ)
props = ("profile", object (member "city" (str "Kyoto") empty_object)) ∷ []

resolved : resolve (path ("profile" ∷ "city" ∷ [])) props ≡ some (str "Kyoto")
unfolding resolve PropertyPath.walk PropertyPath.get_segment PropertyPath.as_object
    PropertyPath.find_member get
resolved = refl

resolve_example :
    ((resolve (path ("profile" ∷ "city" ∷ [])) props ≡ some (str "Kyoto"))
      ↔ ((v : Value ℕ) × (get props "profile" ≡ some v) × Reaches ("city" ∷ []) v (str "Kyoto")))
    × (resolve (flat "profile") props ≡ resolve (path ("profile" ∷ [])) props)
    × (resolve {N = ℕ} (path []) props ≡ none)
resolve_example = Reached.resolve_iff "profile" ("city" ∷ []) props (str "Kyoto")
