-- ===== src/Bpjson/RoundTrip/Objects.antt =====
-- The fields of an object, one by one, and optionals.
use re_bacs_env.Prelude.{
  ◌≡◌, ◌∙◌, ◌⊎◌, arith, refl, sym, true, false, none, some, String, Outcome, ok, inr,
}
use re_bacs_env.Bpjson.Traits.{JsonTraits}
use re_bacs_env.Bpjson.Types.{
  Ty, Fields, El, Els, optional, object, no_fields, field, initial, declared,
}
use re_bacs_env.Bpjson.{
  MissingFields, default_settings, rethrow_in_field, read_field, read_to, read_object,
  read_optional, write_from, write_object,
}
use re_bacs_env.Bpjson.Missing.{LacksAll}
use re_bacs_env.Bpjson.RoundTrip.Values.{IsFresh, IsWritten, IsEmpty, AreEmpty, declared-IsEmpty}

module _ (traits : JsonTraits) where
  open traits use {
    Json, null, is_null, is_object, items, subkey_exists, get_existing_subkey, any_subkey,
    put_subkey, is_null-null, is_object-null, is_array-null, items-null, keys-null, exists-null,
    get-write, is_null-write, any_subkey-fresh, put_object, put_self, put_other,
  }

  -- The value is written, reading what was written gives it back in every mode, and that is null only
  -- for a value that is written as null.
  abbrev pub Returns : (t : Ty traits) → El traits t → Type 0
  Returns t v =
      (json : Json) × (write_from traits t v null ≡ ok json)
      × ((mode : MissingFields) (old : El traits t)
          → IsEmpty traits t old
          → read_to traits t mode json old ≡ ok v)
      × (IsWritten traits t v → is_null json ≡ false)

  -- The fields are written to an object without them, keep its other subkeys, and come back.
  abbrev pub ReturnsAll : (fs : Fields traits) → Els traits fs → Json → Type 0
  ReturnsAll fs v json =
      (json' : Json) × (write_object traits fs v json ≡ ok json')
      × ((k : String)
          → IsFresh traits k fs
          → (subkey_exists json' k ≡ subkey_exists json k)
            × ((v : Json) → get_existing_subkey json k ≡ ok v → get_existing_subkey json' k ≡ ok v))
      × ((T : Ty traits) (mode : MissingFields) (olds : Els traits fs)
          → AreEmpty traits fs olds
          → read_object traits T fs mode json' olds ≡ ok v)
      × (IsWritten traits (object false fs) v ⊎ (is_null json ≡ false) → is_null json' ≡ false)

  pub read_field-present {ℓ} :
      {A : Type ℓ} (T : Ty traits) (mode : MissingFields) (name : String) (fresh : A)
      (get : Json → A → Outcome A) (json sub : Json) (old v : A)
      → subkey_exists json name ≡ true
      → get_existing_subkey json name ≡ ok sub
      → get sub old ≡ ok v
      → read_field traits T mode name fresh get json old ≡ ok v
  unfolding read_field
  read_field-present T mode name fresh get json sub old v there found back =
      ground (arith, there, found, back)

  pub LacksAll-put :
      (fs : Fields traits) (json : Json) (key : String) (sub : Json)
      → is_object json ≡ true
      → IsFresh traits key fs
      → LacksAll traits json fs
      → LacksAll traits (put_subkey json key sub) fs
  LacksAll-put no_fields json key sub o f h = tt
  LacksAll-put (field name t fs) json key sub o f h =
      ((put_other json key name sub o f.0).0 ∙ h.0, LacksAll-put fs json key sub o f.1 h.1)

  pub LacksAll-null : (fs : Fields traits) → LacksAll traits null fs
  LacksAll-null no_fields = tt
  LacksAll-null (field name t fs) = (exists-null name, LacksAll-null fs)

  pub optional-Returns :
      (t : Ty traits) (v : El traits t)
      → IsWritten traits t v
      → Returns t v
      → Returns (optional t) (some v)
  unfolding read_to write_from read_optional
  optional-Returns t v w (json, written, back, solid) = (
    json,
    written,
    λ mode old clear.
        rw (solid w, back default_settings (declared traits t) (declared-IsEmpty traits t)),
    solid,
  )

  pub none-Returns : (t : Ty traits) → Returns (optional t) none
  unfolding read_to write_from read_optional
  none-Returns t = (null, refl, λ mode old clear. rw is_null-null, λ w. absurd w)

  pub field-Returns :
      (name : String) (t : Ty traits) (fs : Fields traits) (v : El traits t) (vs : Els traits fs)
      (json : Json)
      → is_object json ≡ true
      → subkey_exists json name ≡ false
      → IsFresh traits name fs
      → (r : Returns t v) → ReturnsAll fs vs (put_subkey json name r.0)
      → ReturnsAll (field name t fs) (v, vs) json
  unfolding read_to write_from rethrow_in_field initial
  field-Returns name t fs v vs json o lacks fresh (sub, written, back, _)
        (json', rest, keeps, comes, solid) =
      let self = put_self json name sub o in
      let kept = keeps name fresh in
      (
        json',
        rw (any_subkey-fresh json name o lacks, written) rest,
        λ k f.
            let other = put_other json name k sub o (λ e. f.0 (sym e)) in
            ((keeps k f.1).0 ∙ other.0, λ u e. (keeps k f.1).1 u (other.1 u e)),
        λ T mode (old, olds) (clear, clears). rw (
          read_field-present T mode name (initial traits t) (read_to traits t mode) json' sub old v
              (kept.0 ∙ self.0) (kept.1 sub self.1) (back mode old clear),
          comes T mode olds clears,
        ),
        λ e. solid (inr (put_object json name sub o).1),
      )
