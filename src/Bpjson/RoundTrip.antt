-- ===== src/Bpjson/RoundTrip.antt =====
-- What json_serializer writes, it reads back.
pub mod Containers
pub mod Maps
pub mod Values
pub mod Objects
use re_bacs_env.Prelude.{
  ◌≡◌, ◌∙◌, arith, refl, sym, Bool, true, false, none, some, List, [], ◌∷◌, String, ok, All, inl,
  inr, replicate, length-replicate,
}
use re_bacs_env.Bpjson.RoundTrip.Maps.{AreNew, write_entries-Stores, read_entries-Stores}
use re_bacs_env.Bpjson.Traits.{JsonTraits, Precedes}
use re_bacs_env.Bpjson.Types.{
  Ty, Fields, El, Els, leaf, vector, optional, map, array, json_value, object, no_fields, field,
  initial, declared,
}
use re_bacs_env.Bpjson.{MissingFields, default_settings, read_to, write_from, read, write}
use re_bacs_env.Bpjson.Missing.{LacksAll}
use re_bacs_env.Bpjson.RoundTrip.Containers.{
  ComesBack, write_items-Stores, read_items-Stores, read_fixed-Stores,
}
use re_bacs_env.Bpjson.RoundTrip.Values.{
  AreDistinct, IsWritten, Fits, FitsAll, declared-IsEmpty, initial-IsEmpty,
}
use re_bacs_env.Bpjson.RoundTrip.Objects.{
  Returns, ReturnsAll, LacksAll-put, LacksAll-null, optional-Returns, none-Returns, field-Returns,
}

module _ (traits : JsonTraits) where
  open traits use {
    Json, null, is_null, is_object, items, subkey_exists, get_existing_subkey, any_subkey,
    put_subkey, is_null-null, is_object-null, is_array-null, items-null, keys-null, exists-null,
    get-write, is_null-write, any_subkey-fresh, put_object, put_self, put_other,
  }

  -- One element of a container.
  abbrev ComesBackIn : (t : Ty traits) → El traits t → El traits t → Type 0
  ComesBackIn t old x =
      ComesBack traits (λ v. write_from traits t v null)
        (λ j. read_to traits t default_settings j old) x

  items-Return :
      (t : Ty traits)
      → ((x : El traits t) → Fits traits t x → Returns traits t x)
      → (v : List (El traits t)) → All (Fits traits t) v
      → All (ComesBackIn t (declared traits t)) v
  items-Return t each [] h = tt
  items-Return t each (x ∷ xs) h =
      let (json, written, back, _) = each x h.0 in
      (
        (json, written, back default_settings (declared traits t) (declared-IsEmpty traits t)),
        items-Return t each xs h.1,
      )

  entries-Return :
      (t : Ty traits)
      → ((x : El traits t) → Fits traits t x → Returns traits t x)
      → (v : List (String × El traits t)) → All (λ e. Fits traits t e.1) v
      → All (λ e. ComesBackIn t (initial traits t) e.1) v
  entries-Return t each [] h = tt
  entries-Return t each ((k, x) ∷ v) h =
      let (json, written, back, _) = each x h.0 in
      (
        (json, written, back default_settings (initial traits t) (initial-IsEmpty traits t)),
        entries-Return t each v h.1,
      )

  null-AreNew : {A : Type 0} (v : List (String × A)) → AreNew traits null v
  null-AreNew [] = tt
  null-AreNew ((k, x) ∷ v) = ((exists-null k, rw keys-null tt), null-AreNew v)

  none-Precede :
      {A : Type 0} (v : List (String × A))
      → All (λ e. All (λ (t : String × A). Precedes t.0 e.0) []) v
  none-Precede [] = tt
  none-Precede (e ∷ v) = (tt, none-Precede v)

  -- Whether a class has fields does not depend on its mark.
  again :
      (all : Bool) (fs : Fields traits) (v : Els traits fs)
      → IsWritten traits (object all fs) v
      → IsWritten traits (object false fs) v
  again all no_fields v w = w
  again all (field name t fs) v w = tt

  mutual
    unfolding read_to write_from initial

    type-Returns : (t : Ty traits) (v : El traits t) → Fits traits t v → Returns traits t v
    type-Returns (leaf l) v h =
        (_, refl, λ mode old clear. get-write l v null, λ w. is_null-write l v null)
    type-Returns (vector t) v h =
        let (json, js, written, stored, st, solid) =
          write_items-Stores traits (λ x. write_from traits t x null)
            (λ j. read_to traits t default_settings j (declared traits t)) v null
            (items-Return t (type-Returns t) v h) is_array-null in
        (
          json,
          written,
          λ mode old clear.
              rw (stored, items-null, clear)
                (read_items-Stores traits
                  (λ j. read_to traits t default_settings j (declared traits t)) js v [] st),
          λ w. solid (inl w),
        )
    type-Returns (array n t) v h =
        let (json, js, written, stored, st, solid) =
          write_items-Stores traits (λ x. write_from traits t x null)
            (λ j. read_to traits t default_settings j (declared traits t)) v null
            (items-Return t (type-Returns t) v h.1) is_array-null in
        (
          json,
          written,
          λ mode old clear.
              rw (stored, items-null)
                (read_fixed-Stores traits n
                  (λ j. read_to traits t default_settings j (declared traits t)) js v [] old st
                  (omega (arith, h.0)) (clear ∙ sym h.0)),
          λ w. solid (inl w),
        )
    type-Returns (optional t) none h = none-Returns traits t
    type-Returns (optional t) (some v) h = optional-Returns traits t v h.1 (type-Returns t v h.0)
    type-Returns (map t) v h =
        let (json, js, written, keys, st, ex, _, solid) =
          write_entries-Stores traits (write_from traits t) (read_to traits t default_settings)
            (initial traits t) v null (entries-Return t (type-Returns t) v h.1) is_object-null h.0
            (null-AreNew v) in
        (
          json,
          written,
          λ mode old clear.
              rw (keys, keys-null, clear)
                (read_entries-Stores traits (read_to traits t default_settings) (initial traits t)
                  json js v [] st ex h.0 (none-Precede v)),
          λ w. solid (inl w),
        )
    type-Returns json_value v h = (v, refl, λ mode old clear. refl, λ w. w)
    type-Returns (object all fs) v h =
        let (json, written, _, comes, solid) =
          fields-Return fs v null h.0 h.1 is_object-null (LacksAll-null traits fs) in
        (json, written, λ mode. comes (object all fs) mode, λ w. solid (inl (again all fs v w)))

    pub fields-Return :
        (fs : Fields traits) (v : Els traits fs) (json : Json)
        → AreDistinct traits fs
        → FitsAll traits fs v
        → is_object json ≡ true
        → LacksAll traits json fs
        → ReturnsAll traits fs v json
    fields-Return no_fields v json d h o l = (
      json,
      refl,
      λ k f. (refl, λ v e. e),
      λ T mode olds clears. refl,
      λ e. elim e [ inl w ↦ absurd w | inr n ↦ n ],
    )
    fields-Return (field name t fs) (v, vs) json d h o l =
        let r = type-Returns t v h.0 in
        field-Returns traits name t fs v vs json o l.0 d.0 r (
          fields-Return fs vs (put_subkey json name r.0) d.1 h.1 (put_object json name r.0 o).0
            (LacksAll-put traits fs json name r.0 o d.0 l.1))

  -- A value that fits its type is written without an exception, and in every mode reading the JSON
  -- gives it back.
  pub read-write_json :
      (t : Ty traits) (v : El traits t)
      → Fits traits t v
      → (json : Json) × (write traits t v ≡ ok json)
        × ((mode : MissingFields) → read traits t mode json ≡ ok v)
  unfolding read write
  read-write_json t v h =
      let (json, written, back, _) = type-Returns t v h in
      (json, written, λ mode. back mode (declared traits t) (declared-IsEmpty traits t))
