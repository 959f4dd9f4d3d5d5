-- ===== src/Bpjson/Versions.antt =====
-- JSON of programs with different versions of a class: one version has further fields at its end.
use re_bacs_env.Prelude.{◌≡◌, ◌∙◌, refl, sym, ap, Bool, true, false, String, ok, ◌>>=◌, >>=-eq-ok}
use re_bacs_env.Bpjson.Traits.{JsonTraits}
use re_bacs_env.Bpjson.Types.{
  Ty, Fields, Els, object, no_fields, field, initial, resets, declared_fields,
}
use re_bacs_env.Bpjson.{
  MissingFields, ignore, default_initialize, throw_exception, force_optional, json_fields_optional,
  rethrow_in_field, read_site, read_field, read_to, read_object, write, write_from,
}
use re_bacs_env.Bpjson.Missing.{LacksAll, absent-kept, absent-reset}
use re_bacs_env.Bpjson.RoundTrip.Values.{IsFresh, AreDistinct, FitsAll, AreEmpty, declared-AreEmpty}
use re_bacs_env.Bpjson.RoundTrip.Objects.{LacksAll-null}
use re_bacs_env.Bpjson.RoundTrip.{fields-Return}

module _ (traits : JsonTraits) where
  open traits use {Json, null, subkey_exists, is_object-null, exists-null}

  -- The later version: further fields behind those of the earlier one.
  abbrev pub extended : Fields traits → Fields traits → Fields traits
  extended no_fields gs = gs
  extended (field name t fs) gs = field name t (extended fs gs)

  abbrev pub joined :
      (fs gs : Fields traits) → Els traits fs → Els traits gs → Els traits (extended fs gs)
  joined no_fields gs v w = w
  joined (field name t fs) gs (v, vs) w = (v, joined fs gs vs w)

  AreEmpty-joined :
      (fs gs : Fields traits) (o : Els traits fs) (p : Els traits gs)
      → AreEmpty traits fs o
      → AreEmpty traits gs p
      → AreEmpty traits (extended fs gs) (joined fs gs o p)
  AreEmpty-joined no_fields gs o p h k = k
  AreEmpty-joined (field name t fs) gs (o, os) p (h, hs) k = (h, AreEmpty-joined fs gs os p hs k)

  FitsAll-joined :
      (fs gs : Fields traits) (v : Els traits fs) (w : Els traits gs)
      → FitsAll traits fs v
      → FitsAll traits gs w
      → FitsAll traits (extended fs gs) (joined fs gs v w)
  FitsAll-joined no_fields gs v w h k = k
  FitsAll-joined (field name t fs) gs (v, vs) w (h, hs) k = (h, FitsAll-joined fs gs vs w hs k)

  -- No name of the further fields is one of the earlier fields.
  abbrev AreFresh : Fields traits → Fields traits → Type 0
  AreFresh fs no_fields = Unit {0}
  AreFresh fs (field name t gs) = IsFresh traits name fs × AreFresh fs gs

  IsFresh-extended :
      (k : String) (fs gs : Fields traits)
      → IsFresh traits k (extended fs gs)
      → IsFresh traits k fs × IsFresh traits k gs
  IsFresh-extended k no_fields gs h = (tt, h)
  IsFresh-extended k (field name t fs) gs (n, h) =
      let (a, b) = IsFresh-extended k fs gs h in ((n, a), b)

  AreFresh-none : (gs : Fields traits) → AreFresh no_fields gs
  AreFresh-none no_fields = tt
  AreFresh-none (field name t gs) = (tt, AreFresh-none gs)

  AreFresh-field :
      (name : String) (t : Ty traits) (fs gs : Fields traits)
      → IsFresh traits name gs
      → AreFresh fs gs
      → AreFresh (field name t fs) gs
  AreFresh-field name t fs no_fields f a = tt
  AreFresh-field name t fs (field k u gs) (n, f) (a, others) =
      ((λ e. n (sym e), a), AreFresh-field name t fs gs f others)

  AreDistinct-extended :
      (fs gs : Fields traits)
      → AreDistinct traits (extended fs gs)
      → AreDistinct traits fs × AreFresh fs gs
  AreDistinct-extended no_fields gs d = (tt, AreFresh-none gs)
  AreDistinct-extended (field name t fs) gs (f, d) =
      let (a, b) = AreDistinct-extended fs gs d in
      let (f₁, f₂) = IsFresh-extended name fs gs f in ((f₁, a), AreFresh-field name t fs gs f₂ b)

  lacks_fresh :
      (fs gs : Fields traits) (json : Json)
      → ((k : String) → IsFresh traits k fs → subkey_exists json k ≡ false)
      → AreFresh fs gs
      → LacksAll traits json gs
  lacks_fresh fs no_fields json keeps a = tt
  lacks_fresh fs (field name t gs) json keeps (f, a) =
      (keeps name f, lacks_fresh fs gs json keeps a)

  -- Reading the further fields behind the earlier ones.
  read_object-joined :
      (T : Ty traits) (fs gs : Fields traits) (mode : MissingFields) (json : Json)
      (o v : Els traits fs) (p w : Els traits gs)
      → read_object traits T fs mode json o ≡ ok v
      → read_object traits T gs mode json p ≡ ok w
      → read_object traits T (extended fs gs) mode json (joined fs gs o p) ≡ ok (joined fs gs v w)
  unfolding read_to
  read_object-joined T no_fields gs mode json o v p w h k = k
  read_object-joined T (field name t fs) gs mode json (o, os) (v, vs) p w h k =
      let first =
        rethrow_in_field read_site read_site name
          (read_field traits T mode name (initial traits t) (read_to traits t mode) json o) in
      let (x, one, onward) =
        >>=-eq-ok first (λ u. read_object traits T fs mode json os >>= λ us. ok (u, us)) h in
      let (xs, others, same) =
        >>=-eq-ok (read_object traits T fs mode json os) (λ us. ok (x, us)) onward in
      let same₀ : x ≡ v = cc in
      let same₁ : xs ≡ vs = cc in
      rw
        (one ∙ ap ok same₀, read_object-joined T fs gs mode json os vs p w (others ∙ ap ok same₁) k)
        refl

  -- The earlier fields are read in the same way when the further ones do not follow.
  read_object-earlier :
      (T : Ty traits) (fs gs : Fields traits) (mode : MissingFields) (json : Json)
      (o v : Els traits fs) (p w : Els traits gs)
      → read_object traits T (extended fs gs) mode json (joined fs gs o p) ≡ ok (joined fs gs v w)
      → read_object traits T fs mode json o ≡ ok v
  unfolding read_to
  read_object-earlier T no_fields gs mode json o v p w h = refl
  read_object-earlier T (field name t fs) gs mode json (o, os) (v, vs) p w h =
      let first =
        rethrow_in_field read_site read_site name
          (read_field traits T mode name (initial traits t) (read_to traits t mode) json o) in
      let others = read_object traits T (extended fs gs) mode json (joined fs gs os p) in
      let (x, one, onward) = >>=-eq-ok first (λ u. others >>= λ us. ok (u, us)) h in
      let (xs, more, same) = >>=-eq-ok others (λ us. ok (x, us)) onward in
      let same₀ : x ≡ v = cc in
      let same₁ : xs ≡ joined fs gs vs w = cc in
      rw (one ∙ ap ok same₀, read_object-earlier T fs gs mode json os vs p w (more ∙ ap ok same₁))
        refl

  -- What becomes of fields that the JSON lacks.
  abbrev pub left_out : MissingFields → (gs : Fields traits) → Els traits gs → Els traits gs
  left_out ignore gs p = p
  left_out default_initialize gs p = resets traits gs
  left_out throw_exception gs p = p

  absent_fields :
      (gs all : Fields traits) (mode : MissingFields) (json : Json) (p : Els traits gs)
      → LacksAll traits json gs
      → read_object traits (object true all) gs mode json p ≡ ok (left_out mode gs p)
  unfolding force_optional json_fields_optional
  absent_fields gs all ignore json p l =
      absent-kept traits (object true all) gs ignore json p refl refl l
  absent_fields gs all default_initialize json p l =
      absent-reset traits (object true all) gs json p l
  absent_fields gs all throw_exception json p l =
      absent-kept traits (object true all) gs throw_exception json p refl refl l

  -- A class got further fields at its end, with names of their own. In every mode, a reader of the
  -- earlier version takes the JSON of the later one and leaves the further fields aside; and a reader
  -- of the later version takes the JSON of the earlier one, if the class has
  -- BPJSON_ALL_FIELDS_OPTIONAL: the mode `default_initialize` resets the further fields, and the
  -- others leave in them what the variable held, be it indeterminate. The values fit their types, and
  -- the containers in the variable's fields are empty, but in the further fields of the one that the
  -- later version reads they need not be.
  pub read-write_json_versions :
      (all : Bool) (fs gs : Fields traits) (v o : Els traits fs) (w p : Els traits gs)
      → AreDistinct traits (extended fs gs)
      → FitsAll traits fs v
      → FitsAll traits gs w
      → AreEmpty traits fs o
      → ((json : Json) × (write traits (object all fs) v ≡ ok json)
          × ((mode : MissingFields)
              → read_to traits (object true (extended fs gs)) mode json (joined fs gs o p)
                ≡ ok (joined fs gs v (left_out mode gs p))))
        × ((json : Json) × (write traits (object all (extended fs gs)) (joined fs gs v w) ≡ ok json)
            × ((mode : MissingFields) → read_to traits (object all fs) mode json o ≡ ok v))
  unfolding write read_to write_from
  read-write_json_versions all fs gs v o w p distinct h k clear =
      let (distinct', fresh) = AreDistinct-extended fs gs distinct in
      let (json, written, keeps, comes, _) =
        fields-Return traits fs v null distinct' h is_object-null (LacksAll-null traits fs) in
      let (json', written', _, comes', _) =
        fields-Return traits (extended fs gs) (joined fs gs v w) null distinct
          (FitsAll-joined fs gs v w h k) is_object-null (LacksAll-null traits (extended fs gs)) in
      let lacks = lacks_fresh fs gs json (λ name f. (keeps name f).0 ∙ exists-null name) fresh in
      let new = declared_fields traits gs in
      (
        (
          json,
          written,
          λ mode.
              read_object-joined (object true (extended fs gs)) fs gs mode json o v p
                (left_out mode gs p) (comes (object true (extended fs gs)) mode o clear)
                (absent_fields gs (extended fs gs) mode json p lacks),
        ),
        (
          json',
          written',
          λ mode. read_object-earlier (object all fs) fs gs mode json' o v new w (
              comes' (object all fs) mode (joined fs gs o new)
                (AreEmpty-joined fs gs o new clear (declared-AreEmpty traits gs))),
        ),
      )
