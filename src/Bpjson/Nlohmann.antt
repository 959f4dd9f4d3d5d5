-- ===== src/Bpjson/Nlohmann.antt =====
-- bpjson/bpjson/nlohmann_traits.hpp: json_traits for nlohmann::basic_json.
pub mod Small
use text.Mathlib.Text.{◌==◌}
use text.Mathlib.TextEquality.{eq_iff}
use re_bacs_env.Prelude.{
  All, ◌≡◌, ◌≢◌, ◌∙◌, inl, inr, ap, refl, Bool, true, false, ◌||◌, Option, none, some, List, [],
  ◌∷◌, ◌++◌, String, Exception, Outcome, ok, throws, if◌then◌else◌, Option-cases, arith,
}
use re_bacs_env.Bpjson.Traits.{JsonTraits, Precedes}

-- nlohmann::basic_json with its documented behaviour. `Leaf` are the types that `get` and the
-- assignment convert. `find` is an iterator's value, or none for the end; `subscript` is what
-- `json[key]` refers to, and `store` the JSON after an assignment to that.
pub record BasicJson : Type 1 where
  pub Json : Type 0
  pub Leaf : Type 0
  pub Value : Leaf → Type 0
  pub leaf_initial : (l : Leaf) → Value l
  pub leaf_indeterminate : (l : Leaf) → Value l
  pub leaf_initializer : (l : Leaf) → Option (Value l)
  pub null : Json
  pub is_null : Json → Bool
  pub is_object : Json → Bool
  pub is_array : Json → Bool
  pub get : (l : Leaf) → Json → Outcome (Value l)
  pub assign : (l : Leaf) → Value l → Json
  pub find : Json → String → Option Json
  pub at : Json → String → Outcome Json
  pub subscript : Json → String → Outcome Json
  pub store : Json → String → Json → Json
  pub push_back : Json → Json → Outcome Json
  pub elements : Json → List Json
  pub items : Json → List (String × Json)
  pub is_null-null : is_null null ≡ true
  pub elements-null : elements null ≡ []
  pub find-null : (key : String) → find null key ≡ none
  pub get-assign : (l : Leaf) (v : Value l) → get l (assign l v) ≡ ok v
  pub is_null-assign : (l : Leaf) (v : Value l) → is_null (assign l v) ≡ false
  pub at_found :
      (json : Json) (key : String) (v : Json) → find json key ≡ some v → at json key ≡ ok v
  pub at_missing :
      (json : Json) (key : String)
      → find json key ≡ none
      → (e : Exception) × (at json key ≡ throws e)
  pub subscript_missing :
      (json : Json) (key : String)
      → (is_null json || is_object json) ≡ true
      → find json key ≡ none
      → subscript json key ≡ ok null
  pub store_kind :
      (json : Json) (key : String) (v : Json)
      → (is_null json || is_object json) ≡ true
      → (is_object (store json key v) ≡ true) × (is_null (store json key v) ≡ false)
  pub find-store :
      (json : Json) (key other : String) (v : Json)
      → (is_null json || is_object json) ≡ true
      → find (store json key v) other ≡ (if key == other then some v else find json other)
  pub items-null : items null ≡ []
  pub items-store :
      (json : Json) (key : String) (v : Json)
      → (is_null json || is_object json) ≡ true
      → All (λ item. Precedes item.0 key) (items json)
      → items (store json key v) ≡ items json ++ (key, v) ∷ []
  pub push_back_lem :
      (json element : Json)
      → (is_null json || is_array json) ≡ true
      → (json' : Json) × (push_back json element ≡ ok json')
        × (is_array json' ≡ true)
        × (is_null json' ≡ false)
        × (elements json' ≡ elements json ++ element ∷ [])

abbrev pub is_some {ℓ} : {A : Type ℓ} → Option A → Bool
is_some none = false
is_some (some a) = true

or_true : (a b : Bool) → b ≡ true → (a || b) ≡ true
or_true true b h = refl
or_true false b h = h

ne-false : (key other : String) → key ≢ other → (key == other) ≡ false
ne-false key other ne = ground (arith, eq_iff key other)

eq-true : (key : String) → (key == key) ≡ true
eq-true key = (eq_iff key key).1 refl

module _ (j : BasicJson) where
  open j use {
    Json, null, is_null, is_object, is_array, find, at, subscript, store, push_back, elements,
    at_missing, at_found, find-null, is_null-null, find-store, store_kind, subscript_missing,
    push_back_lem,
  }

  pub missing_throws :
      (json : Json) (key : String)
      → is_some (find json key) ≡ false
      → (e : Exception) × (at json key ≡ throws e)
  missing_throws json key h = elim (Option-cases (find json key)) [
    | inl e ↦ at_missing json key e
    | inr (v, e) ↦ cc (rw e at h)
  ]

  pub any_subkey-fresh :
      (json : Json) (key : String)
      → (is_null json || is_object json) ≡ true
      → is_some (find json key) ≡ false
      → subscript json key ≡ ok null
  any_subkey-fresh json key o h = elim (Option-cases (find json key)) [
    | inl e ↦ subscript_missing json key o e
    | inr (v, e) ↦ cc (rw e at h)
  ]

  pub put_object :
      (json : Json) (key : String) (sub : Json)
      → (is_null json || is_object json) ≡ true
      → ((is_null (store json key sub) || is_object (store json key sub)) ≡ true)
        × (is_null (store json key sub) ≡ false)
  put_object json key sub o = (
    or_true (is_null (store json key sub)) (is_object (store json key sub))
        (store_kind json key sub o).0,
    (store_kind json key sub o).1,
  )

  pub put_self :
      (json : Json) (key : String) (sub : Json)
      → (is_null json || is_object json) ≡ true
      → (is_some (find (store json key sub) key) ≡ true) × (at (store json key sub) key ≡ ok sub)
  put_self json key sub o =
      let found : find (store json key sub) key ≡ some sub =
        find-store json key key sub o
        ∙ ap (λ b. if b then some sub else find json key) (eq-true key) in
      (ap is_some found, at_found (store json key sub) key sub found)

  pub put_other :
      (json : Json) (key other : String) (sub : Json)
      → (is_null json || is_object json) ≡ true
      → key ≢ other
      → (is_some (find (store json key sub) other) ≡ is_some (find json other))
        × ((v : Json) → at json other ≡ ok v → at (store json key sub) other ≡ ok v)
  put_other json key other sub o ne =
      let kept : find (store json key sub) other ≡ find json other =
        find-store json key other sub o
        ∙ ap (λ b. if b then some sub else find json other) (ne-false key other ne) in
      (
        ap is_some kept,
        λ v h. elim (Option-cases (find json other)) [
          | inl e ↦ let (x, thrown) = at_missing json other e in cc (rw thrown at h)
          | inr (w, e) ↦
              at_found (store json key sub) other v (kept ∙ e ∙ cc (at_found json other w e, h))
        ],
      )

  pub add_element :
      (json element : Json)
      → (is_null json || is_array json) ≡ true
      → (json' : Json) × (push_back json element ≡ ok json')
        × ((is_null json' || is_array json') ≡ true)
        × (is_null json' ≡ false)
        × (elements json' ≡ elements json ++ element ∷ [])
  add_element json element a =
      let (json', pushed, array, solid, held) = push_back_lem json element a in
      (json', pushed, or_true (is_null json') (is_array json') array, solid, held)

  pub null_or : (b : Bool) → (is_null null || b) ≡ true
  null_or b = rw is_null-null

  -- json_traits<nlohmann::basic_json>: one call for each operation. A null JSON may become an
  -- object or an array.
  abbrev pub nlohmann_traits : JsonTraits
  nlohmann_traits = record {
    Json = Json;
    Leaf = j.Leaf;
    Value = j.Value;
    leaf_initial = j.leaf_initial;
    leaf_indeterminate = j.leaf_indeterminate;
    leaf_initializer = j.leaf_initializer;
    null = null;
    is_null = is_null;
    is_object = λ json. is_null json || is_object json;
    is_array = λ json. is_null json || is_array json;
    items = elements;
    get_typed_value = j.get;
    write_typed_value = λ l v json. j.assign l v;
    subkey_exists = λ json key. is_some (find json key);
    get_existing_subkey = at;
    any_subkey = subscript;
    put_subkey = store;
    add_array_element = push_back;
    get_keys = j.items;
    missing_throws = missing_throws;
    is_null-null = is_null-null;
    is_object-null = null_or (is_object null);
    is_array-null = null_or (is_array null);
    items-null = j.elements-null;
    exists-null = λ key. ap is_some (find-null key);
    get-write = λ l v json. j.get-assign l v;
    is_null-write = λ l v json. j.is_null-assign l v;
    any_subkey-fresh = any_subkey-fresh;
    put_object = put_object;
    put_self = put_self;
    put_other = put_other;
    keys-null = j.items-null;
    keys-put = j.items-store;
    add_element = add_element;
  }
