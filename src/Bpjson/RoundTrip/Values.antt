-- ===== src/Bpjson/RoundTrip/Values.antt =====
-- The values that JSON gives back.
use re_bacs_env.Prelude.{
  ◌≡◌, ◌≢◌, false, none, some, [], String, length, All, refl, length-replicate,
}
use re_bacs_env.Bpjson.RoundTrip.Maps.{Ascends}
use re_bacs_env.Bpjson.Traits.{JsonTraits}
use re_bacs_env.Bpjson.Types.{
  Ty, Fields, El, Els, leaf, vector, optional, map, array, json_value, object, no_fields, field,
  initial, initials, declared, declared_fields, member,
}

module _ (traits : JsonTraits) where
  open traits use {
    Json, null, is_null, is_object, items, subkey_exists, get_existing_subkey, any_subkey,
    put_subkey, is_null-null, is_object-null, is_array-null, items-null, keys-null, exists-null,
    get-write, is_null-write, any_subkey-fresh, put_object, put_self, put_other,
  }

  -- The name is none of the fields'.
  abbrev pub IsFresh : String → Fields traits → Type 0
  IsFresh name no_fields = Unit {0}
  IsFresh name (field n t fs) = (name ≢ n) × IsFresh name fs

  abbrev pub AreDistinct : Fields traits → Type 0
  AreDistinct no_fields = Unit {0}
  AreDistinct (field name t fs) = IsFresh name fs × AreDistinct fs

  -- The values that are not written as null.
  abbrev pub IsWritten : (t : Ty traits) → El traits t → Type 0
  IsWritten (leaf l) v = Unit {0}
  IsWritten (vector t) v = v ≢ []
  IsWritten (optional t) none = ⊥
  IsWritten (optional t) (some v) = IsWritten t v
  IsWritten (map t) v = v ≢ []
  IsWritten (array n t) v = v ≢ []
  IsWritten json_value v = is_null v ≡ false
  IsWritten (object all no_fields) v = ⊥
  IsWritten (object all (field name t fs)) v = Unit {0}

  -- The values that come back: arrays of their size, no optional with a value that is written as
  -- null, and classes with different names for their fields. The keys of a map ascend.
  abbrev mutual
    pub Fits : (t : Ty traits) → El traits t → Type 0
    Fits (leaf l) v = Unit {0}
    Fits (vector t) v = All (Fits t) v
    Fits (optional t) none = Unit {0}
    Fits (optional t) (some v) = Fits t v × IsWritten t v
    Fits (map t) v = Ascends v × All (λ e. Fits t e.1) v
    Fits (array n t) v = (length v ≡ n) × All (Fits t) v
    Fits json_value v = Unit {0}
    Fits (object all fs) v = AreDistinct fs × FitsAll fs v

    pub FitsAll : (fs : Fields traits) → Els traits fs → Type 0
    FitsAll no_fields v = Unit {0}
    FitsAll (field name t fs) (v, vs) = Fits t v × FitsAll fs vs

  -- What a variable that is read into may hold: containers without elements, and arrays of their
  -- size. What scalars and optionals hold does not matter.
  abbrev mutual
    pub IsEmpty : (t : Ty traits) → El traits t → Type 0
    IsEmpty (leaf l) v = Unit {0}
    IsEmpty (vector t) v = v ≡ []
    IsEmpty (optional t) v = Unit {0}
    IsEmpty (map t) v = v ≡ []
    IsEmpty (array n t) v = length v ≡ n
    IsEmpty json_value v = Unit {0}
    IsEmpty (object all fs) v = AreEmpty fs v

    pub AreEmpty : (fs : Fields traits) → Els traits fs → Type 0
    AreEmpty no_fields v = Unit {0}
    AreEmpty (field name t fs) (v, vs) = IsEmpty t v × AreEmpty fs vs

  pub member-IsEmpty :
      (t : Ty traits) (v : El traits t) → IsEmpty t v → IsEmpty t (member traits t v)
  member-IsEmpty (leaf l) v h = tt
  member-IsEmpty (vector t) v h = h
  member-IsEmpty (optional t) v h = tt
  member-IsEmpty (map t) v h = h
  member-IsEmpty (array n t) v h = h
  member-IsEmpty json_value v h = tt
  member-IsEmpty (object all fs) v h = h

  mutual
    unfolding declared

    pub declared-IsEmpty : (t : Ty traits) → IsEmpty t (declared traits t)
    declared-IsEmpty (leaf l) = tt
    declared-IsEmpty (vector t) = refl
    declared-IsEmpty (optional t) = tt
    declared-IsEmpty (map t) = refl
    declared-IsEmpty (array n t) = length-replicate n (declared traits t)
    declared-IsEmpty json_value = tt
    declared-IsEmpty (object all fs) = declared-AreEmpty fs

    pub declared-AreEmpty : (fs : Fields traits) → AreEmpty fs (declared_fields traits fs)
    declared-AreEmpty no_fields = tt
    declared-AreEmpty (field name t fs) =
        (member-IsEmpty t (declared traits t) (declared-IsEmpty t), declared-AreEmpty fs)

  mutual
    unfolding initial

    pub initial-IsEmpty : (t : Ty traits) → IsEmpty t (initial traits t)
    initial-IsEmpty (leaf l) = tt
    initial-IsEmpty (vector t) = refl
    initial-IsEmpty (optional t) = tt
    initial-IsEmpty (map t) = refl
    initial-IsEmpty (array n t) = length-replicate n (initial traits t)
    initial-IsEmpty json_value = tt
    initial-IsEmpty (object all fs) = initials-AreEmpty fs

    initials-AreEmpty : (fs : Fields traits) → AreEmpty fs (initials traits fs)
    initials-AreEmpty no_fields = tt
    initials-AreEmpty (field name t fs) =
        (member-IsEmpty t (initial traits t) (initial-IsEmpty t), initials-AreEmpty fs)
