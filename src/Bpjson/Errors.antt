-- ===== src/Bpjson/Errors.antt =====
-- What json_serializer throws: the text around a failing field.
use re_bacs_env.Prelude.{◌≡◌, ◌⊎◌, List, [], ◌∷◌, String, Exception, runtime_error, concat}
use re_bacs_env.Bpjson.Traits.{JsonTraits}
use re_bacs_env.Bpjson.Types.{Fields, no_fields, field}

-- What stands behind the name of the field.
abbrev pub for_exception : String → List String
for_exception what = "' caught exception - " ∷ what ∷ []

abbrev pub for_unknown : List String
for_unknown = "' caught unknown exception" ∷ []

abbrev pub text : String → String → List String → Exception
text site name tail = runtime_error (concat (site ∷ ": field '" ∷ name ∷ tail))

-- The texts of a field: with the `what` of an exception, or for one without.
abbrev pub IsTextOf : String → String → String → Exception → Type 0
IsTextOf site site' name e =
    ((what : String) × (e ≡ text site name (for_exception what)))
    ⊎ (e ≡ text site' name for_unknown)

module _ (traits : JsonTraits) where
  open traits use {Json}

  abbrev pub NamedIn : String → Fields traits → Type 0
  NamedIn name no_fields = ⊥
  NamedIn name (field n t fs) = (name ≡ n) ⊎ NamedIn name fs

  -- The exception's text names one of the fields.
  abbrev pub Blames : String → String → Fields traits → Exception → Type 0
  Blames site site' fs e = (name : String) × NamedIn name fs × IsTextOf site site' name e
