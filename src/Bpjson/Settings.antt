-- ===== src/Bpjson/Settings.antt =====
-- bpjson/bpjson/bpjson.hpp: serialization_settings, and what the serializer does with exceptions.
use re_bacs_env.Prelude.{
  [], ◌∷◌, Bool, true, false, String, Outcome, ok, throws, fault, diverges, ill_formed,
  runtime_error, unknown, concat,
}

pub data MissingFields : Type 0 where
  ignore default_initialize throw_exception : MissingFields

abbrev pub is_throw_exception : MissingFields → Bool
is_throw_exception throw_exception = true
is_throw_exception ignore = false
is_throw_exception default_initialize = false

abbrev pub is_default_initialize : MissingFields → Bool
is_default_initialize default_initialize = true
is_default_initialize ignore = false
is_default_initialize throw_exception = false

-- serialization_settings, by its one field: its default is `throw_exception`.
abbrev pub default_settings : MissingFields
default_settings = throw_exception

-- The handlers around one field; `site` names the function.
unfoldable pub rethrow_in_field {ℓ} :
    {A : Type ℓ} → String → String → String → Outcome A → Outcome A
rethrow_in_field site site' name (ok a) = ok a
rethrow_in_field site site' name (throws (runtime_error what)) =
    throws
      (runtime_error (concat (site ∷ ": field '" ∷ name ∷ "' caught exception - " ∷ what ∷ [])))
rethrow_in_field site site' name (throws unknown) =
    throws (runtime_error (concat (site' ∷ ": field '" ∷ name ∷ "' caught unknown exception" ∷ [])))
rethrow_in_field site site' name fault = fault
rethrow_in_field site site' name diverges = diverges
rethrow_in_field site site' name ill_formed = ill_formed

abbrev pub read_site : String
read_site = "bpjson::json_serializer.read_object"

abbrev pub write_site : String
write_site = "bpjson::json_serializer.write_object"
