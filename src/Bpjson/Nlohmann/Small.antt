-- ===== src/Bpjson/Nlohmann/Small.antt =====
-- A small JSON on which the tests run: numbers, lists and objects, item by item and member by
-- member.
pub mod Laws
use text.Mathlib.Text.{◌==◌}
use re_bacs_env.Prelude.{
  All, ℕ, ◌≡◌, refl, arith, ap, Bool, true, false, ◌||◌, Option, none, some, List, [], ◌∷◌, ◌++◌,
  String, Exception, Outcome, ok, throws, unknown, if◌then◌else◌,
}

pub data Json : Type 0 where
  null empty_list empty_object : Json
  number : ℕ → Json
  with_item : Json → Json → Json
  with_member : String → Json → Json → Json

abbrev pub is_null : Json → Bool
is_null null = true
is_null empty_list = false
is_null empty_object = false
is_null (number n) = false
is_null (with_item x rest) = false
is_null (with_member k v rest) = false

abbrev pub is_object : Json → Bool
is_object empty_object = true
is_object (with_member k v rest) = true
is_object _ = false

abbrev pub is_array : Json → Bool
is_array empty_list = true
is_array (with_item x rest) = true
is_array _ = false

unfoldable pub find : Json → String → Option Json
find null key = none
find empty_list key = none
find empty_object key = none
find (number n) key = none
find (with_item x rest) key = none
find (with_member k v rest) key = if k == key then some v else find rest key

abbrev pub found : Option Json → Outcome Json
found none = throws unknown
found (some v) = ok v

abbrev pub or_null : Option Json → Json
or_null none = null
or_null (some v) = v

unfoldable pub subscript : Json → String → Outcome Json
unfolding find
subscript json key =
    if is_null json || is_object json then ok (or_null (find json key)) else throws unknown

unfoldable pub store : Json → String → Json → Json
store null key new = with_member key new empty_object
store empty_list key new = with_member key new empty_object
store empty_object key new = with_member key new empty_object
store (number n) key new = with_member key new empty_object
store (with_item x rest) key new = with_member key new empty_object
store (with_member k v rest) key new =
    if k == key then with_member k new rest else with_member k v (store rest key new)

unfoldable pub elements : Json → List Json
elements null = []
elements empty_list = []
elements empty_object = []
elements (number n) = []
elements (with_item x rest) = x ∷ elements rest
elements (with_member k v rest) = []

unfoldable pub items : Json → List (String × Json)
items (with_member k v rest) = (k, v) ∷ items rest
items _ = []

unfoldable pub append_item : Json → Json → Json
append_item null e = with_item e empty_list
append_item empty_list e = with_item e empty_list
append_item empty_object e = with_item e empty_list
append_item (number n) e = with_item e empty_list
append_item (with_item x rest) e = with_item x (append_item rest e)
append_item (with_member k v rest) e = with_item e empty_list

unfoldable pub push_back : Json → Json → Outcome Json
unfolding append_item
push_back json e = if is_null json || is_array json then ok (append_item json e) else throws unknown

abbrev pub get_number : Json → Outcome ℕ
get_number (number n) = ok n
get_number _ = throws unknown
