-- ===== src/Bpjson/Types.antt =====
-- The C++ types that bpjson reads and writes, as codes, and the values of each.
use re_bacs_env.Prelude.{ℕ, Bool, Option, none, some, List, [], String, replicate}
use re_bacs_env.Bpjson.Traits.{JsonTraits}

module _ (traits : JsonTraits) where
  open traits use {Json, Leaf, Value, leaf_initial, leaf_indeterminate, leaf_initializer, null}

  -- The types that json_walker distinguishes. The Boolean of an `object` is its
  -- json_fields_optional, which BPJSON_ALL_FIELDS_OPTIONAL sets.
  mutual
    pub data Ty : Type 0 where
      leaf : Leaf → Ty
      vector optional map : Ty → Ty
      array : ℕ → Ty → Ty
      json_value : Ty
      object : Bool → Fields → Ty

    pub data Fields : Type 0 where
      no_fields : Fields
      field : String → Ty → Fields → Fields

  abbrev mutual
    pub El : Ty → Type 0
    El (leaf l) = Value l
    El (vector t) = List (El t)
    El (optional t) = Option (El t)
    El (array n t) = List (El t)
    El (map t) = List (String × El t)
    El json_value = Json
    El (object all fs) = Els fs

    pub Els : Fields → Type 0
    Els no_fields = Unit {0}
    Els (field name t fs) = El t × Els fs

  abbrev pub given {ℓ} : {A : Type ℓ} → A → Option A → A
  given v none = v
  given v (some w) = w

  -- A member that would hold `v` but for its default member initializer. Such initializers are modelled
  -- for what the JSON library converts itself.
  abbrev pub member : (t : Ty) → El t → El t
  member (leaf l) v = given v (leaf_initializer l)
  member (vector t) v = v
  member (optional t) v = v
  member (array n t) v = v
  member (map t) v = v
  member json_value v = v
  member (object all fs) v = v

  -- `T value;`.
  unfoldable mutual
    pub declared : (t : Ty) → El t
    declared (leaf l) = leaf_indeterminate l
    declared (vector t) = []
    declared (optional t) = none
    declared (array n t) = replicate n (declared t)
    declared (map t) = []
    declared json_value = null
    declared (object all fs) = declared_fields fs

    pub declared_fields : (fs : Fields) → Els fs
    declared_fields no_fields = tt
    declared_fields (field name t fs) = (member t (declared t), declared_fields fs)

  -- `T{}`.
  unfoldable mutual
    pub initial : (t : Ty) → El t
    initial (leaf l) = leaf_initial l
    initial (vector t) = []
    initial (optional t) = none
    initial (array n t) = replicate n (initial t)
    initial (map t) = []
    initial json_value = null
    initial (object all fs) = initials fs

    pub initials : (fs : Fields) → Els fs
    initials no_fields = tt
    initials (field name t fs) = (member t (initial t), initials fs)

  -- `field.value() = {}` for every field: it does not ask for an initializer of the member.
  abbrev pub resets : (fs : Fields) → Els fs
  resets no_fields = tt
  resets (field name t fs) = (initial t, resets fs)
