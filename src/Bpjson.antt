-- ===== src/Bpjson.antt =====
-- bpjson/bpjson/bpjson.hpp: values and objects in JSON, in the JSON of any library. Its
-- container_appender is the same as that of plakpacs.
pub mod Traits
pub mod Types
pub mod Settings
pub mod StdMap
pub mod Nlohmann
pub mod Missing
pub mod RoundTrip
pub mod Safety
pub mod Errors
pub mod Versions
mod Runs
use re_bacs_env.Prelude.{
  ℕ, Bool, true, false, not, ◌&&◌, ◌||◌, Option, none, some, List, [], ◌∷◌, String, Outcome, ok,
  ◌>>=◌, if◌then◌else◌,
}
use re_bacs_env.Bpjson.Traits.{JsonTraits}
use re_bacs_env.Bpjson.Types.{
  Ty, Fields, El, Els, leaf, vector, optional, map, array, json_value, object, no_fields, field,
  initial, declared,
}
use re_bacs_env.Plakpacs.Appenders.{append, FixedAppender, append_fixed}
use re_bacs_env.Bpjson.StdMap.{map_at, map_put}
pub use re_bacs_env.Bpjson.Settings.{
  MissingFields, ignore, default_initialize, throw_exception, is_throw_exception,
  is_default_initialize, default_settings, read_site, write_site,
}
unfoldable pub use re_bacs_env.Bpjson.Settings.{rethrow_in_field}

module _ (traits : JsonTraits) where
  open traits use {
    Json, Leaf, Value, null, is_null, items, get_keys, get_typed_value, write_typed_value,
    subkey_exists, get_existing_subkey, any_subkey, put_subkey, add_array_element,
  }

  -- json_walker<Json, T>::force_optional.
  unfoldable pub force_optional : Ty traits → Bool
  force_optional (optional t) = true
  force_optional (leaf l) = false
  force_optional (vector t) = false
  force_optional (array n t) = false
  force_optional (map t) = false
  force_optional json_value = false
  force_optional (object all fs) = false

  -- json_fields_optional<T>::value.
  unfoldable pub json_fields_optional : Ty traits → Bool
  json_fields_optional (object all fs) = all
  json_fields_optional (leaf l) = false
  json_fields_optional (vector t) = false
  json_fields_optional (optional t) = false
  json_fields_optional (array n t) = false
  json_fields_optional (map t) = false
  json_fields_optional json_value = false

  -- The container walker's loops, with each of the appenders.
  unfoldable pub read_items {ℓ} :
      {A : Type ℓ} → (Json → Outcome A) → List Json → List A → Outcome (List A)
  unfolding append
  read_items get [] to = ok to
  read_items get (item ∷ rest) to = do v ← get item; read_items get rest (append to v)

  unfoldable pub read_fixed {ℓ} :
      {A : Type ℓ} → ℕ → (Json → Outcome A) → List Json → FixedAppender A → Outcome (List A)
  unfolding append_fixed
  read_fixed n get [] a = ok a.container
  read_fixed n get (item ∷ rest) a = do
    v ← get item
    a' ← append_fixed n a v
    read_fixed n get rest a'

  unfoldable pub read_optional {ℓ} : {A : Type ℓ} → (Json → Outcome A) → Json → Outcome (Option A)
  read_optional get json = if is_null json then ok none else (get json >>= λ v. ok (some v))

  -- The map walker's loop; the subkey that it looks up is not used.
  unfoldable pub read_entries {ℓ} :
      {A : Type ℓ}
      → A
      → (Json → A → Outcome A)
      → Json
      → List (String × Json)
      → List (String × A)
      → Outcome (List (String × A))
  unfolding map_at map_put
  read_entries fresh get json [] to = ok to
  read_entries fresh get json ((key, value) ∷ rest) to = do
    subkey ← get_existing_subkey json key
    v ← get value (map_at fresh key to)
    read_entries fresh get json rest (map_put key v to)

  -- The `try` block of `read_object`, for a field of the class `T` with its type's initial value and
  -- its reader.
  unfoldable pub read_field {ℓ} :
      {A : Type ℓ}
      → (T : Ty traits) → MissingFields
      → String
      → A
      → (Json → A → Outcome A)
      → Json
      → A
      → Outcome A
  unfolding force_optional json_fields_optional
  read_field T mode name fresh get json old =
      if (is_throw_exception mode && not (force_optional T) && not (json_fields_optional T))
        || subkey_exists json name
      then (get_existing_subkey json name >>= λ sub. get sub old)
      else ok (if is_default_initialize mode then fresh else old)

  -- The general json_walker, for what the JSON library converts itself.
  abbrev pub read_leaf : (l : Leaf) → Json → Outcome (Value l)
  read_leaf l json = get_typed_value l json

  abbrev pub write_leaf : (l : Leaf) → Value l → Json → Json
  write_leaf l v json = write_typed_value l v json

  -- `read_to`: the last argument is what the variable holds. The walkers of containers and optionals
  -- do not get the settings, and start again with the default ones.
  unfoldable mutual
    pub read_to : (t : Ty traits) → MissingFields → Json → El traits t → Outcome (El traits t)
    read_to (leaf l) mode json to = read_leaf l json
    read_to (vector t) mode json to =
        read_items (λ item. read_to t default_settings item (declared traits t)) (items json) to
    read_to (array n t) mode json to =
        read_fixed n (λ item. read_to t default_settings item (declared traits t)) (items json)
          (record { container = to; index = 0 })
    read_to (optional t) mode json to =
        read_optional (λ j. read_to t default_settings j (declared traits t)) json
    read_to (map t) mode json to =
        read_entries (initial traits t) (read_to t default_settings) json (get_keys json) to
    read_to json_value mode json to = ok json
    read_to (object all fs) mode json to = read_object (object all fs) fs mode json to

    -- `T` is the class, of which `fs` are the fields still to read.
    pub read_object :
        (T : Ty traits) (fs : Fields traits)
        → MissingFields
        → Json
        → Els traits fs
        → Outcome (Els traits fs)
    read_object T no_fields mode json to = ok tt
    read_object T (field name t fs) mode json (to, tos) = do
      v ←
          rethrow_in_field read_site read_site name
            (read_field T mode name (initial traits t) (read_to t mode) json to)
      vs ← read_object T fs mode json tos
      ok (v, vs)

  unfoldable pub write_items {ℓ} : {A : Type ℓ} → (A → Outcome Json) → List A → Json → Outcome Json
  write_items put [] json = ok json
  write_items put (item ∷ rest) json = do
    element ← put item
    json' ← add_array_element json element
    write_items put rest json'

  -- The map walker's loop.
  unfoldable pub write_entries {ℓ} :
      {A : Type ℓ} → (A → Json → Outcome Json) → List (String × A) → Json → Outcome Json
  write_entries put [] json = ok json
  write_entries put ((key, v) ∷ rest) json = do
    sub ← any_subkey json key
    sub' ← put v sub
    write_entries put rest (put_subkey json key sub')

  -- No settings: `write_from` only passes them on.
  unfoldable mutual
    pub write_from : (t : Ty traits) → El traits t → Json → Outcome Json
    write_from (leaf l) v json = ok (write_leaf l v json)
    write_from (vector t) v json = write_items (λ item. write_from t item null) v json
    write_from (array n t) v json = write_items (λ item. write_from t item null) v json
    write_from (optional t) none json = ok null
    write_from (optional t) (some v) json = write_from t v json
    write_from (map t) v json = write_entries (write_from t) v json
    write_from json_value v json = ok v
    write_from (object all fs) v json = write_object fs v json

    -- The text for an unknown exception names `read_object`.
    pub write_object : (fs : Fields traits) → Els traits fs → Json → Outcome Json
    write_object no_fields v json = ok json
    write_object (field name t fs) (v, vs) json = do
      json' ←
          rethrow_in_field write_site read_site name (do
            sub ← any_subkey json name
            sub' ← write_from t v sub
            ok (put_subkey json name sub'))
      write_object fs vs json'

  unfoldable pub read : (t : Ty traits) → MissingFields → Json → Outcome (El traits t)
  unfolding read_to declared
  read t mode json = read_to t mode json (declared traits t)

  unfoldable pub write : (t : Ty traits) → El traits t → Outcome Json
  unfolding write_from
  write t value = write_from t value null
