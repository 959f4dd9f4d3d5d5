-- ===== src/Plakpacs/Serializer/Errors.antt =====
-- What plakpacs::serializer throws: the text around a failing field.
use re_bacs_env.Prelude.{
  ◌≡◌, ◌⊎◌, inl, inr, refl, List, [], ◌∷◌, String, Exception, Outcome, ok, throws, fault, diverges,
  ill_formed, runtime_error, unknown, bind-eq-throws, concat,
}
use re_bacs_env.Plakpacs.Platform.{Platform}
use re_bacs_env.Plakpacs.Types.{Fields, Els, object, no_fields, field}
use re_bacs_env.Plakpacs.Streams.{ReadStream}
use re_bacs_env.Plakpacs.Serializer.{read, read_object, rethrow_in_field, read_site, map_value}

-- The name is that of one of the fields.
abbrev pub NamedIn : String → Fields → Type 0
NamedIn name no_fields = ⊥
NamedIn name (field n t fs) = (name ≡ n) ⊎ NamedIn name fs

-- An exception whose text names the class and one of its fields.
abbrev pub Blames : String → Fields → Exception → Type 0
Blames holder fs e =
    (name : String) × (tail : List String) × NamedIn name fs
    × (e ≡ runtime_error (concat (read_site ∷ ": field '" ∷ holder ∷ "." ∷ name ∷ tail)))

rethrow-Blames {ℓ} :
    {A : Type ℓ} (holder name : String) (r : Outcome A) (e : Exception)
    → rethrow_in_field read_site holder name r ≡ throws e
    → (tail : List String) × (e
        ≡ runtime_error (concat (read_site ∷ ": field '" ∷ holder ∷ "." ∷ name ∷ tail)))
unfolding rethrow_in_field
rethrow-Blames holder name (ok v) e h = cc
rethrow-Blames holder name (throws (runtime_error what)) e h =
    ("' caught exception - " ∷ what ∷ [], cc)
rethrow-Blames holder name (throws unknown) e h = ("' caught unknown exception" ∷ [], cc)
rethrow-Blames holder name fault e h = cc
rethrow-Blames holder name diverges e h = cc
rethrow-Blames holder name ill_formed e h = cc

module _ (p : Platform) where
  fields-Blames :
      (holder : String) (fs : Fields) (old : Els fs) (s : ReadStream) (e : Exception)
      → read_object p holder fs old s ≡ throws e
      → Blames holder fs e
  unfolding read
  fields-Blames holder no_fields old s e h = cc
  fields-Blames holder (field name t fs) (old, olds) s e h =
      elim (bind-eq-throws (rethrow_in_field read_site holder name (read p t old s))
        (λ (v, u). map_value (λ vs. (v, vs)) (read_object p holder fs olds u)) e h) [
          | inl first ↦
              let (tail, text) = rethrow-Blames holder name (read p t old s) e first in
              (name, tail, inl refl, text)
          | inr ((v, u), later) ↦
              elim (bind-eq-throws (read_object p holder fs olds u) (λ (vs, w). ok ((v, vs), w)) e
                later) [
                  | inl rest ↦
                      let (n, tail, named, text) = fields-Blames holder fs olds u e rest in
                      (n, tail, inr named, text)
                  | inr (vs, never) ↦ cc
                ]
        ]

  -- Every exception that leaves the read of an object is a std::runtime_error, and its text starts
  -- with the function, the class and the name of one of the class's fields.
  pub read-Blames :
      (holder : String) (fs : Fields) (old : Els fs) (s : ReadStream) (e : Exception)
      → read p (object holder fs) old s ≡ throws e
      → Blames holder fs e
  unfolding read
  read-Blames holder fs old s e h = fields-Blames holder fs old s e h
