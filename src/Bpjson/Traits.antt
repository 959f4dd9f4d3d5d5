-- ===== src/Bpjson/Traits.antt =====
-- What bpjson takes from a JSON library: bpjson::json_traits.
use Prim.Native.Nat.{Ordering}
use Prim.Native.String.{compare}
use re_bacs_env.Prelude.{
  All, ◌≡◌, ◌≢◌, Bool, true, false, Option, List, [], ◌∷◌, ◌++◌, String, Exception, Outcome, ok,
  throws,
}

-- The order of the keys of a std::map.
abbrev pub Precedes : String → String → Type 0
Precedes key other = (compare key other ≡ Ordering.lt) × (compare other key ≡ Ordering.gt)

-- The operations of json_traits<Json>, and what holds of them. `Leaf` are the C++ types that the
-- library converts itself, `Value l` their values: `leaf_initial` is `T{}`, `leaf_indeterminate` what
-- a variable holds that is declared without an initializer, and `leaf_initializer` the default member
-- initializer of a member with this code, if it has one. A subkey is changed in place through
-- `any_subkey`, which is `json[key]`: `put_subkey` is the JSON behind that. `is_object` and
-- `is_array` say of what kind a JSON is or, if it is null, may become.
pub record JsonTraits : Type 1 where
  pub Json : Type 0
  pub Leaf : Type 0
  pub Value : Leaf → Type 0
  pub leaf_initial : (l : Leaf) → Value l
  pub leaf_indeterminate : (l : Leaf) → Value l
  pub leaf_initializer : (l : Leaf) → Option (Value l)
  pub null : Json
  pub is_null : Json → Bool
  pub is_object : Json → Bool
  pub is_array : Json → Bool
  pub items : Json → List Json
  pub get_typed_value : (l : Leaf) → Json → Outcome (Value l)
  pub write_typed_value : (l : Leaf) → Value l → Json → Json
  pub subkey_exists : Json → String → Bool
  pub get_existing_subkey : Json → String → Outcome Json
  pub any_subkey : Json → String → Outcome Json
  pub put_subkey : Json → String → Json → Json
  pub add_array_element : Json → Json → Outcome Json
  pub get_keys : Json → List (String × Json)
  pub missing_throws :
      (json : Json) (key : String)
      → subkey_exists json key ≡ false
      → (e : Exception) × (get_existing_subkey json key ≡ throws e)
  pub is_null-null : is_null null ≡ true
  pub is_object-null : is_object null ≡ true
  pub is_array-null : is_array null ≡ true
  pub items-null : items null ≡ []
  pub exists-null : (key : String) → subkey_exists null key ≡ false
  pub get-write :
      (l : Leaf) (v : Value l) (json : Json) → get_typed_value l (write_typed_value l v json) ≡ ok v
  pub is_null-write :
      (l : Leaf) (v : Value l) (json : Json) → is_null (write_typed_value l v json) ≡ false
  pub any_subkey-fresh :
      (json : Json) (key : String)
      → is_object json ≡ true
      → subkey_exists json key ≡ false
      → any_subkey json key ≡ ok null
  pub put_object :
      (json : Json) (key : String) (sub : Json)
      → is_object json ≡ true
      → (is_object (put_subkey json key sub) ≡ true) × (is_null (put_subkey json key sub) ≡ false)
  pub put_self :
      (json : Json) (key : String) (sub : Json)
      → is_object json ≡ true
      → (subkey_exists (put_subkey json key sub) key ≡ true)
        × (get_existing_subkey (put_subkey json key sub) key ≡ ok sub)
  pub put_other :
      (json : Json) (key other : String) (sub : Json)
      → is_object json ≡ true
      → key ≢ other
      → (subkey_exists (put_subkey json key sub) other ≡ subkey_exists json other)
        × ((v : Json)
            → get_existing_subkey json other ≡ ok v
            → get_existing_subkey (put_subkey json key sub) other ≡ ok v)
  -- A new key that comes after all others comes last.
  pub keys-null : get_keys null ≡ []
  pub keys-put :
      (json : Json) (key : String) (sub : Json)
      → is_object json ≡ true
      → All (λ entry. Precedes entry.0 key) (get_keys json)
      → get_keys (put_subkey json key sub) ≡ get_keys json ++ (key, sub) ∷ []
  pub add_element :
      (json element : Json)
      → is_array json ≡ true
      → (json' : Json) × (add_array_element json element ≡ ok json')
        × (is_array json' ≡ true)
        × (is_null json' ≡ false)
        × (items json' ≡ items json ++ element ∷ [])
