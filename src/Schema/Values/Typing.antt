-- ===== src/Schema/Values/Typing.antt =====
-- Which values a type of the schema accepts, as rules, and that `value_matches_type` decides them.
use chiffondb.Prelude.{
  ℕ, Bool, true, Option, none, some, List, [], ◌∷◌, String, ◌≡◌, refl, ◌⊎◌, arith,
}
use chiffondb.Schema.Ast.{
  TypeExpr, int, float, boolean, date_time, string, json, blob, vector, list, dict, node_ref,
  edge_ref, named, FieldDef,
}
use chiffondb.Schema.Names.{get}
use chiffondb.Schema.Values.{
  Value, null, bool, number, str, array, object, Items, nil, cons, Members, empty_object, member,
  all_numbers, value_matches_type, items_match, members_match,
}

abbrev pub HasField : List FieldDef → String → Type 0
HasField [] key = ⊥
HasField (field ∷ fields) key = (field.name ≡ key) ⊎ HasField fields key

module _ {N : Type 0} (is_i64 is_u64 : N → Bool) where
  pub data IsNumber : Value N → Type 0 where
    a_number : (n : N) → IsNumber (number n)

  pub data EachNumber : Items N → Type 0 where
    no_numbers : EachNumber nil
    one_number : {v : Value N} {vs : Items N} → IsNumber v → EachNumber vs → EachNumber (cons v vs)

  mutual
    pub data HasType : Value N → TypeExpr → Type 0 where
      absent : (t : TypeExpr) → HasType null t
      any_json : (v : Value N) → HasType v json
      whole : (n : N) → (is_i64 n ≡ true) ⊎ (is_u64 n ≡ true) → HasType (number n) int
      real : (n : N) → HasType (number n) float
      truth : (b : Bool) → HasType (bool b) boolean
      words : (s : String) → HasType (str s) string
      moment : (s : String) → HasType (str s) date_time
      base64 : (s : String) → HasType (str s) blob
      byte_array : (vs : Items N) → HasType (array vs) blob
      components : (n : ℕ) (vs : Items N) → EachNumber vs → HasType (array vs) (vector n)
      elements : (t : TypeExpr) (vs : Items N) → EachItem vs t → HasType (array vs) (list t)
      entries : (k t : TypeExpr) (ms : Members N) → EachMember ms t → HasType (object ms) (dict k t)
      node_id : (s name : String) → HasType (str s) (node_ref name)
      edge_id : (s name : String) → HasType (str s) (edge_ref name)
      named_id : (s name : String) → HasType (str s) (named name)

    pub data EachItem : Items N → TypeExpr → Type 0 where
      no_items : (t : TypeExpr) → EachItem nil t
      one_item :
          (t : TypeExpr) (v : Value N) (vs : Items N)
          → HasType v t
          → EachItem vs t
          → EachItem (cons v vs) t

    pub data EachMember : Members N → TypeExpr → Type 0 where
      none_left : (t : TypeExpr) → EachMember empty_object t
      one_member :
          (t : TypeExpr) (key : String) (v : Value N) (ms : Members N)
          → HasType v t
          → EachMember ms t
          → EachMember (member key v ms) t

  all_numbers_complete : (vs : Items N) → EachNumber vs → all_numbers vs ≡ true
  unfolding all_numbers
  all_numbers_complete nil no_numbers = refl
  all_numbers_complete (cons v vs) (one_number (a_number n) ns) = all_numbers_complete vs ns

  all_numbers_sound : (vs : Items N) → all_numbers vs ≡ true → EachNumber vs
  unfolding all_numbers
  all_numbers_sound nil h = no_numbers
  all_numbers_sound (cons (number n) vs) h = one_number (a_number n) (all_numbers_sound vs h)
  all_numbers_sound (cons v vs) h = absurd cc

  json-matches : (v : Value N) → value_matches_type is_i64 is_u64 v json ≡ true
  unfolding value_matches_type
  json-matches null = refl
  json-matches v = refl

  mutual
    unfolding value_matches_type items_match members_match

    matches_complete :
        (v : Value N) (t : TypeExpr) → HasType v t → value_matches_type is_i64 is_u64 v t ≡ true
    matches_complete null t d = refl
    matches_complete v json (any_json _) = json-matches v
    matches_complete (number n) int (whole _ h) = ground arith
    matches_complete (number n) float (real _) = refl
    matches_complete (bool b) boolean (truth _) = refl
    matches_complete (str s) string (words _) = refl
    matches_complete (str s) date_time (moment _) = refl
    matches_complete (str s) blob (base64 _) = refl
    matches_complete (array vs) blob (byte_array _) = refl
    matches_complete (array vs) (vector n) (components _ _ h) = all_numbers_complete vs h
    matches_complete (array vs) (list t) (elements _ _ h) = items_complete vs t h
    matches_complete (object ms) (dict k t) (entries _ _ _ h) = members_complete ms t h
    matches_complete (str s) (node_ref name) (node_id _ _) = refl
    matches_complete (str s) (edge_ref name) (edge_id _ _) = refl
    matches_complete (str s) (named name) (named_id _ _) = refl
    matches_complete v t d = elim d [ ]

    items_complete :
        (vs : Items N) (t : TypeExpr) → EachItem vs t → items_match is_i64 is_u64 vs t ≡ true
    items_complete nil t (no_items _) = refl
    items_complete (cons v vs) t (one_item _ _ _ h hs) =
        ground (arith, matches_complete v t h, items_complete vs t hs)

    members_complete :
        (ms : Members N) (t : TypeExpr) → EachMember ms t → members_match is_i64 is_u64 ms t ≡ true
    members_complete empty_object t (none_left _) = refl
    members_complete (member key v ms) t (one_member _ _ _ _ h hs) =
        ground (arith, matches_complete v t h, members_complete ms t hs)

  mutual
    unfolding value_matches_type items_match members_match

    matches_sound :
        (v : Value N) (t : TypeExpr) → value_matches_type is_i64 is_u64 v t ≡ true → HasType v t
    matches_sound null t h = absent t
    matches_sound v json h = any_json v
    matches_sound (number n) int h = whole n (ground arith)
    matches_sound (number n) float h = real n
    matches_sound (bool b) boolean h = truth b
    matches_sound (str s) string h = words s
    matches_sound (str s) date_time h = moment s
    matches_sound (str s) blob h = base64 s
    matches_sound (array vs) blob h = byte_array vs
    matches_sound (array vs) (vector n) h = components n vs (all_numbers_sound vs h)
    matches_sound (array vs) (list t) h = elements t vs (items_sound vs t h)
    matches_sound (object ms) (dict k t) h = entries k t ms (members_sound ms t h)
    matches_sound (str s) (node_ref name) h = node_id s name
    matches_sound (str s) (edge_ref name) h = edge_id s name
    matches_sound (str s) (named name) h = named_id s name
    matches_sound v t h = absurd cc

    items_sound :
        (vs : Items N) (t : TypeExpr) → items_match is_i64 is_u64 vs t ≡ true → EachItem vs t
    items_sound nil t h = no_items t
    items_sound (cons v vs) t h =
        one_item t v vs (matches_sound v t (ground arith)) (items_sound vs t (ground arith))

    members_sound :
        (ms : Members N) (t : TypeExpr) → members_match is_i64 is_u64 ms t ≡ true → EachMember ms t
    members_sound empty_object t h = none_left t
    members_sound (member key v ms) t h =
        one_member t key v ms (matches_sound v t (ground arith)) (members_sound ms t (ground arith))

  -- Every stored key names a field of the type.
  abbrev pub KeysKnown : List FieldDef → List (String × Value N) → Type 0
  KeysKnown fields [] = Unit
  KeysKnown fields ((key, value) ∷ properties) = HasField fields key × KeysKnown fields properties

  abbrev pub ValueFits : FieldDef → Option (Value N) → Type 0
  ValueFits field none = Unit
  ValueFits field (some value) = HasType value field.type_expr

  -- The value stored under a field's name has the field's type.
  abbrev pub FieldFilled : List (String × Value N) → FieldDef → Type 0
  FieldFilled properties field = ValueFits field (get properties field.name)
