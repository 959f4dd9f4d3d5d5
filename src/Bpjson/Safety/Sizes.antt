-- ===== src/Bpjson/Safety/Sizes.antt =====
-- Values whose arrays have their size, among them those of new variables.
use re_bacs_env.Prelude.{◌≡◌, none, some, length, length-replicate, All, All-replicate}
use re_bacs_env.Bpjson.Traits.{JsonTraits}
use re_bacs_env.Bpjson.Types.{
  Ty, Fields, El, Els, leaf, vector, optional, map, array, json_value, object, no_fields, field,
  initial, initials, declared, declared_fields, member,
}

module _ (traits : JsonTraits) where
  -- The arrays in a value have the size of their type, at every depth.
  abbrev mutual
    pub IsSized : (t : Ty traits) → El traits t → Type 0
    IsSized (leaf l) v = Unit {0}
    IsSized (vector t) v = All (IsSized t) v
    IsSized (optional t) none = Unit {0}
    IsSized (optional t) (some v) = IsSized t v
    IsSized (map t) v = All (λ e. IsSized t e.1) v
    IsSized (array n t) v = (length v ≡ n) × All (IsSized t) v
    IsSized json_value v = Unit {0}
    IsSized (object all fs) v = AreSized fs v

    pub AreSized : (fs : Fields traits) → Els traits fs → Type 0
    AreSized no_fields v = Unit {0}
    AreSized (field name t fs) (v, vs) = IsSized t v × AreSized fs vs

  member-IsSized : (t : Ty traits) (v : El traits t) → IsSized t v → IsSized t (member traits t v)
  member-IsSized (leaf l) v h = tt
  member-IsSized (vector t) v h = h
  member-IsSized (optional t) v h = h
  member-IsSized (map t) v h = h
  member-IsSized (array n t) v h = h
  member-IsSized json_value v h = tt
  member-IsSized (object all fs) v h = h

  mutual
    unfolding initial

    pub initial-IsSized : (t : Ty traits) → IsSized t (initial traits t)
    initial-IsSized (leaf l) = tt
    initial-IsSized (vector t) = tt
    initial-IsSized (optional t) = tt
    initial-IsSized (map t) = tt
    initial-IsSized (array n t) = (
      length-replicate n (initial traits t),
      All-replicate (IsSized t) n (initial traits t) (initial-IsSized t),
    )
    initial-IsSized json_value = tt
    initial-IsSized (object all fs) = initials-AreSized fs

    initials-AreSized : (fs : Fields traits) → AreSized fs (initials traits fs)
    initials-AreSized no_fields = tt
    initials-AreSized (field name t fs) =
        (member-IsSized t (initial traits t) (initial-IsSized t), initials-AreSized fs)

  mutual
    unfolding declared

    pub declared-IsSized : (t : Ty traits) → IsSized t (declared traits t)
    declared-IsSized (leaf l) = tt
    declared-IsSized (vector t) = tt
    declared-IsSized (optional t) = tt
    declared-IsSized (map t) = tt
    declared-IsSized (array n t) = (
      length-replicate n (declared traits t),
      All-replicate (IsSized t) n (declared traits t) (declared-IsSized t),
    )
    declared-IsSized json_value = tt
    declared-IsSized (object all fs) = declared-AreSized fs

    declared-AreSized : (fs : Fields traits) → AreSized fs (declared_fields traits fs)
    declared-AreSized no_fields = tt
    declared-AreSized (field name t fs) =
        (member-IsSized t (declared traits t) (declared-IsSized t), declared-AreSized fs)
