-- ===== src/Bpjson/Safety.antt =====
-- Reading any JSON whatever.
pub mod Outcomes
pub mod Sizes
use re_bacs_env.Prelude.{
  ◌>>=◌, ℕ, ◌≡◌, inl, inr, not, ◌&&◌, ◌||◌, Bool-cases, none, some, List, [], ◌∷◌, String, Outcome,
  ok, length, length-replicate, All, All-append, All-replicate,
}
use re_bacs_env.Plakpacs.Appenders.{append, FixedAppender, append_fixed}
use re_bacs_env.Plakpacs.Appenders.Laws.{appended, append_fixed-appended}
use re_bacs_env.Bpjson.Traits.{JsonTraits}
use re_bacs_env.Bpjson.Types.{
  Ty, Fields, El, Els, leaf, vector, optional, map, array, json_value, object, no_fields, field,
  initial, declared,
}
use re_bacs_env.Bpjson.StdMap.{map_at, map_put}
use re_bacs_env.Bpjson.{
  MissingFields, default_settings, is_throw_exception, is_default_initialize, read_site,
  force_optional, json_fields_optional, read_field, read_to, read_object, read_optional, read_items,
  read_fixed, read_entries, read,
}
use re_bacs_env.Bpjson.Safety.Sizes.{IsSized, AreSized, initial-IsSized, declared-IsSized}
use re_bacs_env.Bpjson.Safety.Outcomes.{
  Ends, Any, bind-Ends, rethrow-Ends, appended-Sized, map_at-All, map_put-All,
}

module _ (traits : JsonTraits) where
  open traits use {Json, Leaf}

  -- The library's own reads return or throw.
  pub record Answers : Type 0 where
    pub get_typed_value : (l : Leaf) (json : Json) → Ends Any (traits.get_typed_value l json)
    pub get_existing_subkey :
        (json : Json) (key : String) → Ends Any (traits.get_existing_subkey json key)

  module _ {ℓ} {A : Type ℓ} (P : A → Type 0) where
    read_items-Ends :
        (get : Json → Outcome A)
        → ((json : Json) → Ends P (get json))
        → (items : List Json) (to : List A) → All P to
        → Ends (All P) (read_items traits get items to)
    unfolding read_items append
    read_items-Ends get h [] to hx = hx
    read_items-Ends get h (item ∷ rest) to hx =
        bind-Ends P (All P) (get item) (λ v. read_items traits get rest (append to v)) (h item)
          (λ v hv. read_items-Ends get h rest (append to v) (All-append P to (v ∷ []) hx (hv, tt)))

    read_fixed-Ends :
        (n : ℕ) (get : Json → Outcome A)
        → ((json : Json) → Ends P (get json))
        → (items : List Json) (a : FixedAppender A) → (length a.container ≡ n) × All P a.container
        → Ends (λ v. (length v ≡ n) × All P v) (read_fixed traits n get items a)
    unfolding read_fixed
    read_fixed-Ends n get h [] a ha = ha
    read_fixed-Ends n get h (item ∷ rest) a ha =
        bind-Ends P _ (get item) (λ v. append_fixed n a v >>= read_fixed traits n get rest) (h item)
          (λ v hv.
            rw (append_fixed-appended n a v)
              (read_fixed-Ends n get h rest (appended n a v) (appended-Sized P n a v ha hv)))

    read_entries-Ends :
        (fresh : A) (get : Json → A → Outcome A)
        → Answers
        → P fresh
        → ((json : Json) (old : A) → P old → Ends P (get json old))
        → (json : Json) (entries : List (String × Json)) (to : List (String × A))
        → All (λ e. P e.1) to
        → Ends (All (λ e. P e.1)) (read_entries traits fresh get json entries to)
    unfolding read_entries
    read_entries-Ends fresh get ans hf h json [] to ht = ht
    read_entries-Ends fresh get ans hf h json ((key, value) ∷ rest) to ht =
        bind-Ends Any _ (traits.get_existing_subkey json key) _ (ans.get_existing_subkey json key)
          (λ sub _.
            bind-Ends P _ (get value (map_at fresh key to))
              (λ v. read_entries traits fresh get json rest (map_put key v to))
              (h value (map_at fresh key to) (map_at-All P fresh key to hf ht))
              (λ v hv.
                read_entries-Ends fresh get ans hf h json rest (map_put key v to)
                  (map_put-All P key v to hv ht)))

    read_field-Ends :
        (T : Ty traits) (mode : MissingFields) (name : String) (fresh : A)
        (get : Json → A → Outcome A) (json : Json) (old : A)
        → Answers
        → P fresh
        → P old
        → ((sub : Json) → Ends P (get sub old))
        → Ends P (read_field traits T mode name fresh get json old)
    unfolding read_field
    read_field-Ends T mode name fresh get json old ans hf ho h =
        elim (Bool-cases (
          (is_throw_exception mode
            && not (force_optional traits T)
            && not (json_fields_optional traits T))
          || traits.subkey_exists json name)) [
            | inl e ↦ rw e (
                bind-Ends Any P (traits.get_existing_subkey json name) (λ sub. get sub old)
                  (ans.get_existing_subkey json name) (λ sub _. h sub))
            | inr e ↦ elim (Bool-cases (is_default_initialize mode)) [
              | inl d ↦ rw (e, d) hf
              | inr d ↦ rw (e, d) ho
            ]
          ]

  read_optional-Ends :
      (t : Ty traits) (get : Json → Outcome (El traits t)) (json : Json)
      → Ends (IsSized traits t) (get json)
      → Ends (IsSized traits (optional t)) (read_optional traits get json)
  unfolding read_optional
  read_optional-Ends t get json h = elim (Bool-cases (traits.is_null json)) [
    | inl e ↦ rw e tt
    | inr e ↦ rw e (
        bind-Ends (IsSized traits t) (IsSized traits (optional t)) (get json) (λ v. ok (some v)) h
          (λ v hv. hv))
  ]

  module _ (ans : Answers) where
    mutual
      unfolding read_to

      read_to-Ends :
          (t : Ty traits) (mode : MissingFields) (json : Json) (to : El traits t)
          → IsSized traits t to
          → Ends (IsSized traits t) (read_to traits t mode json to)
      read_to-Ends (leaf l) mode json to h = ans.get_typed_value l json
      read_to-Ends (vector t) mode json to h =
          read_items-Ends (IsSized traits t) _
            (λ item.
              read_to-Ends t default_settings item (declared traits t) (declared-IsSized traits t))
            (traits.items json) to h
      read_to-Ends (array n t) mode json to h =
          read_fixed-Ends (IsSized traits t) n _
            (λ item.
              read_to-Ends t default_settings item (declared traits t) (declared-IsSized traits t))
            (traits.items json) (record { container = to; index = 0 }) h
      read_to-Ends (optional t) mode json to h =
          read_optional-Ends t _ json
            (read_to-Ends t default_settings json (declared traits t) (declared-IsSized traits t))
      read_to-Ends (map t) mode json to h =
          read_entries-Ends (IsSized traits t) (initial traits t)
            (read_to traits t default_settings) ans (initial-IsSized traits t)
            (read_to-Ends t default_settings) json (traits.get_keys json) to h
      read_to-Ends json_value mode json to h = tt
      read_to-Ends (object all fs) mode json to h =
          read_object-Ends (object all fs) fs mode json to h

      read_object-Ends :
          (T : Ty traits) (fs : Fields traits) (mode : MissingFields) (json : Json)
          (to : Els traits fs)
          → AreSized traits fs to
          → Ends (AreSized traits fs) (read_object traits T fs mode json to)
      read_object-Ends T no_fields mode json to h = tt
      read_object-Ends T (field name t fs) mode json (to, tos) h =
          bind-Ends (IsSized traits t) _ _ _
            (rethrow-Ends (IsSized traits t) read_site read_site name
              (read_field traits T mode name (initial traits t) (read_to traits t mode) json to)
              (read_field-Ends (IsSized traits t) T mode name (initial traits t)
                (read_to traits t mode) json to ans (initial-IsSized traits t) h.0
                (λ sub. read_to-Ends t mode sub to h.0)))
            (λ v hv.
              bind-Ends (AreSized traits fs) _ (read_object traits T fs mode json tos) _
                (read_object-Ends T fs mode json tos h.1) (λ vs hvs. (hv, hvs)))

    -- Whatever the JSON is, reading it returns or throws, in every mode: it does not write behind the
    -- end of an array, however many items the JSON has for it, and what it returns has arrays of
    -- their size at every depth. The library's own reads return or throw.
    pub read-Ends :
        (t : Ty traits) (mode : MissingFields) (json : Json)
        → Ends (IsSized traits t) (read traits t mode json)
    unfolding read
    read-Ends t mode json = read_to-Ends t mode json (declared traits t) (declared-IsSized traits t)
