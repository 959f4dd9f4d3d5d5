-- ===== src/Bpjson/Nlohmann/Small/Laws.antt =====
-- The small JSON is a BasicJson.
use text.Mathlib.Text.{◌==◌}
use text.Mathlib.TextEquality.{eq_iff}
use re_bacs_env.Prelude.{
  All, ℕ, ◌≡◌, refl, arith, ap, true, false, ◌||◌, Option, none, some, [], ◌∷◌, ◌++◌, String,
  Exception, ok, throws, unknown, if◌then◌else◌,
}
use re_bacs_env.Bpjson.Traits.{Precedes}
use re_bacs_env.Bpjson.Nlohmann.{BasicJson}
use re_bacs_env.Bpjson.Nlohmann.Small.{
  Json, null, empty_list, empty_object, number, with_item, with_member, is_null, is_object,
  is_array, find, found, subscript, store, elements, items, append_item, push_back, get_number,
}

pub found-none : (o : Option Json) → o ≡ none → (e : Exception) × (found o ≡ throws e)
found-none none h = (unknown, refl)
found-none (some v) h = cc

pub found-some : (o : Option Json) (v : Json) → o ≡ some v → found o ≡ ok v
found-some o v h = ap found h

pub subscript_missing :
    (json : Json) (key : String)
    → (is_null json || is_object json) ≡ true
    → find json key ≡ none
    → subscript json key ≡ ok null
unfolding subscript
subscript_missing json key o h = rw (o, h)

pub store_kind :
    (json : Json) (key : String) (v : Json)
    → (is_null json || is_object json) ≡ true
    → (is_object (store json key v) ≡ true) × (is_null (store json key v) ≡ false)
unfolding store
store_kind null key v o = (refl, refl)
store_kind empty_list key v o = (refl, refl)
store_kind empty_object key v o = (refl, refl)
store_kind (number n) key v o = (refl, refl)
store_kind (with_item x rest) key v o = (refl, refl)
store_kind (with_member k w rest) key v o = ground arith

pub find-store :
    (json : Json) (key other : String) (v : Json)
    → (is_null json || is_object json) ≡ true
    → find (store json key v) other ≡ (if key == other then some v else find json other)
unfolding find store
find-store json key other v o = any json
  where
    any : (j : Json) → find (store j key v) other ≡ (if key == other then some v else find j other)
    any null = refl
    any empty_list = refl
    any empty_object = refl
    any (number n) = refl
    any (with_item x rest) = refl
    any (with_member k w rest) =
        ground (arith, eq_iff k key, eq_iff k other, eq_iff key other, any rest)

pub items-null : items null ≡ []
unfolding items
items-null = refl

pub items-store :
    (json : Json) (key : String) (v : Json)
    → (is_null json || is_object json) ≡ true
    → All (λ item. Precedes item.0 key) (items json)
    → items (store json key v) ≡ items json ++ (key, v) ∷ []
unfolding items store
items-store json key v o = any json
  where
    any :
        (j : Json)
        → All (λ item. Precedes item.0 key) (items j)
        → items (store j key v) ≡ items j ++ (key, v) ∷ []
    any null h = refl
    any empty_list h = refl
    any empty_object h = refl
    any (number n) h = refl
    any (with_item x rest) h = refl
    any (with_member k w rest) h = rw h.0.0 (ap (◌∷◌ (k, w)) (any rest h.1))

elements-append_item : (json e : Json) → elements (append_item json e) ≡ elements json ++ e ∷ []
unfolding elements append_item
elements-append_item null e = refl
elements-append_item empty_list e = refl
elements-append_item empty_object e = refl
elements-append_item (number n) e = refl
elements-append_item (with_item x rest) e = ap (◌∷◌ x) (elements-append_item rest e)
elements-append_item (with_member k v rest) e = refl

append_item_kind :
    (json e : Json)
    → (is_array (append_item json e) ≡ true) × (is_null (append_item json e) ≡ false)
unfolding append_item
append_item_kind null e = (refl, refl)
append_item_kind empty_list e = (refl, refl)
append_item_kind empty_object e = (refl, refl)
append_item_kind (number n) e = (refl, refl)
append_item_kind (with_item x rest) e = (refl, refl)
append_item_kind (with_member k v rest) e = (refl, refl)

pub push_back_lem :
    (json e : Json)
    → (is_null json || is_array json) ≡ true
    → (json' : Json) × (push_back json e ≡ ok json')
      × (is_array json' ≡ true)
      × (is_null json' ≡ false)
      × (elements json' ≡ elements json ++ e ∷ [])
unfolding push_back
push_back_lem json e a =
    let (array, solid) = append_item_kind json e in
    (append_item json e, rw a, array, solid, elements-append_item json e)

pub elements-null : elements null ≡ []
unfolding elements
elements-null = refl

pub find-null : (key : String) → find null key ≡ none
unfolding find
find-null key = refl

abbrev pub small_json : BasicJson
small_json = record {
  Json = Json;
  Leaf = Unit {0};
  Value = λ l. ℕ;
  leaf_initial = λ l. 0;
  leaf_indeterminate = λ l. 0xcccc;
  leaf_initializer = λ l. none;
  null = null;
  is_null = is_null;
  is_object = is_object;
  is_array = is_array;
  get = λ l json. get_number json;
  assign = λ l v. number v;
  find = find;
  at = λ json key. found (find json key);
  subscript = subscript;
  store = store;
  push_back = push_back;
  elements = elements;
  items = items;
  is_null-null = refl;
  elements-null = elements-null;
  find-null = find-null;
  get-assign = λ l v. refl;
  is_null-assign = λ l v. refl;
  at_found = λ json key v h. found-some (find json key) v h;
  at_missing = λ json key h. found-none (find json key) h;
  subscript_missing = subscript_missing;
  store_kind = store_kind;
  find-store = find-store;
  items-null = items-null;
  items-store = items-store;
  push_back_lem = push_back_lem;
}
