-- ===== src/Bpjson/Missing.antt =====
-- json_serializer::read_object on JSON that lacks fields.
use re_bacs_env.Prelude.{
  ◌≡◌, ◌≢◌, ◌⊎◌, ◌∙◌, inl, inr, refl, sym, ap, Bool, true, false, not, ◌&&◌, List, [], ◌∷◌, ◌++◌,
  String, Exception, Outcome, ok, throws, runtime_error, unknown, ◌>>=◌, >>=-eq-ok,
}
use re_bacs_env.Plakpacs.Appenders.{append}
use re_bacs_env.Bpjson.Traits.{JsonTraits}
use re_bacs_env.Bpjson.Types.{
  Ty, Fields, Els, vector, object, no_fields, field, initial, resets, declared, declared_fields,
}
use re_bacs_env.Bpjson.{
  MissingFields, ignore, default_initialize, throw_exception, is_throw_exception,
  is_default_initialize, default_settings, rethrow_in_field, read_site, force_optional,
  json_fields_optional, read_items, read_field, read_to, read_object, read,
}

rethrow-throws {ℓ} :
    {A : Type ℓ} (site site' name : String) (e : Exception) (a : A)
    → rethrow_in_field site site' name (throws e) ≢ ok a
unfolding rethrow_in_field
rethrow-throws site site' name (runtime_error what) a h = cc
rethrow-throws site site' name unknown a h = cc

module _ (traits : JsonTraits) where
  open traits use {Json, items, subkey_exists, get_existing_subkey, missing_throws}

  -- The name is that of one of the fields.
  abbrev pub NamedIn : String → Fields traits → Type 0
  NamedIn name no_fields = ⊥
  NamedIn name (field n t fs) = (name ≡ n) ⊎ NamedIn name fs

  -- The JSON has none of the fields.
  abbrev pub LacksAll : Json → Fields traits → Type 0
  LacksAll json no_fields = Unit {0}
  LacksAll json (field name t fs) = (subkey_exists json name ≡ false) × LacksAll json fs

  read_field-missing {ℓ} :
      {A : Type ℓ} (fs : Fields traits) (name : String) (fresh : A) (get : Json → A → Outcome A)
      (json : Json) (old : A)
      → subkey_exists json name ≡ false
      → (e : Exception) × (read_field traits
            (object false fs)
            throw_exception
            name
            fresh
            get
            json
            old
          ≡ throws e)
  unfolding read_field force_optional json_fields_optional
  read_field-missing fs name fresh get json old h =
      let (e, thrown) = missing_throws json name h in (e, rw thrown refl)

  fields-missing :
      (all fs : Fields traits) (json : Json) (tos r : Els traits fs) (name : String)
      → NamedIn name fs
      → subkey_exists json name ≡ false
      → read_object traits (object false all) fs throw_exception json tos ≢ ok r
  unfolding read_to
  fields-missing all no_fields json tos r name n h e = n
  fields-missing all (field f t fs) json (to, tos) (v, vs) name n h e =
      let first =
        read_field traits (object false all) throw_exception f (initial traits t)
          (read_to traits t throw_exception) json to in
      let (w, returned, onward) =
        >>=-eq-ok (rethrow_in_field read_site read_site f first)
          (λ u.
            read_object traits (object false all) fs throw_exception json tos >>= λ us. ok (u, us))
          e in
      elim n [
        | inl same ↦
            let (x, thrown) =
              read_field-missing all f (initial traits t) (read_to traits t throw_exception) json to
                (rw same at h) in
            rethrow-throws read_site read_site f x w
              (ap (rethrow_in_field read_site read_site f) (sym thrown) ∙ returned)
        | inr later ↦
            let (ws, rest, _) =
              >>=-eq-ok (read_object traits (object false all) fs throw_exception json tos)
                (λ us. ok (w, us)) onward in
            fields-missing all fs json tos ws name later h rest
      ]

  -- In the mode `throw_exception`, a class without BPJSON_ALL_FIELDS_OPTIONAL is not read from JSON
  -- that lacks one of its fields, whatever the type of that field is, std::optional included.
  pub read-missing :
      (fs : Fields traits) (json : Json) (name : String) (r : Els traits fs)
      → NamedIn name fs
      → subkey_exists json name ≡ false
      → read traits (object false fs) throw_exception json ≢ ok r
  unfolding read read_to declared
  read-missing fs json name r n h e =
      fields-missing fs fs json (declared_fields traits fs) r name n h e

  -- The container walker's loop on such objects.
  abbrev read_all :
      (fs : Fields traits) → List Json → List (Els traits fs) → Outcome (List (Els traits fs))
  read_all fs items to =
      read_items traits
        (λ j. read_to traits (object false fs) default_settings j (declared_fields traits fs)) items
        to

  items-missing :
      (fs : Fields traits) (name : String) (front : List Json) (item : Json) (back : List Json)
      (to r : List (Els traits fs))
      → NamedIn name fs
      → subkey_exists item name ≡ false
      → read_all fs (front ++ (item ∷ back)) to ≢ ok r
  unfolding read_items read_to
  items-missing fs name [] item back to r n h e =
      let (v, first, _) =
        >>=-eq-ok
          (read_to traits (object false fs) default_settings item (declared_fields traits fs))
          (λ u. read_all fs back (append to u)) e in
      fields-missing fs fs item (declared_fields traits fs) v name n h first
  items-missing fs name (x ∷ front) item back to r n h e =
      let (v, _, onward) =
        >>=-eq-ok (read_to traits (object false fs) default_settings x (declared_fields traits fs))
          (λ u. read_all fs (front ++ (item ∷ back)) (append to u)) e in
      items-missing fs name front item back (append to v) r n h onward

  -- In no mode is a container of such objects read from JSON one of whose items lacks a field: the
  -- mode of the settings does not reach the items.
  pub read_to-missing_in_item :
      (fs : Fields traits) (mode : MissingFields) (json : Json) (name : String) (front : List Json)
      (item : Json) (back : List Json) (to r : List (Els traits fs))
      → items json ≡ front ++ (item ∷ back)
      → NamedIn name fs
      → subkey_exists item name ≡ false
      → read_to traits (vector (object false fs)) mode json to ≢ ok r
  unfolding read_to declared
  read_to-missing_in_item fs mode json name front item back to r at_item n h e =
      items-missing fs name front item back to r n h (rw at_item at e)

  -- The test of `read_object` without its lookup.
  abbrev pub demands : Ty traits → MissingFields → Bool
  demands T mode =
      is_throw_exception mode
      && not (force_optional traits T)
      && not (json_fields_optional traits T)

  pub absent-kept :
      (T : Ty traits) (fs : Fields traits) (mode : MissingFields) (json : Json)
      (tos : Els traits fs)
      → demands T mode ≡ false
      → is_default_initialize mode ≡ false
      → LacksAll json fs
      → read_object traits T fs mode json tos ≡ ok tos
  unfolding read_to read_field rethrow_in_field
  absent-kept T no_fields mode json tos d k h = refl
  absent-kept T (field name t fs) mode json (to, tos) d k h =
      rw (d, h.0, k, absent-kept T fs mode json tos d k h.1) refl

  pub absent-reset :
      (T : Ty traits) (fs : Fields traits) (json : Json) (tos : Els traits fs)
      → LacksAll json fs
      → read_object traits T fs default_initialize json tos ≡ ok (resets traits fs)
  unfolding read_to read_field rethrow_in_field initial
  absent-reset T no_fields json tos h = refl
  absent-reset T (field name t fs) json (to, tos) h = rw (h.0, absent-reset T fs json tos h.1) refl

  -- From JSON that has none of the fields of a class, the mode `ignore` leaves an object as it is and
  -- `default_initialize` resets every field; so does `throw_exception` with
  -- BPJSON_ALL_FIELDS_OPTIONAL leave it as it is. None of them throws.
  pub read_to-absent :
      (all : Bool) (fs : Fields traits) (json : Json) (tos : Els traits fs)
      → LacksAll json fs
      → (read_to traits (object all fs) ignore json tos ≡ ok tos)
        × (read_to traits (object all fs) default_initialize json tos ≡ ok (resets traits fs))
        × (read_to traits (object true fs) throw_exception json tos ≡ ok tos)
  unfolding read_to json_fields_optional force_optional
  read_to-absent all fs json tos h = (
    absent-kept (object all fs) fs ignore json tos refl refl h,
    absent-reset (object all fs) fs json tos h,
    absent-kept (object true fs) fs throw_exception json tos refl refl h,
  )
