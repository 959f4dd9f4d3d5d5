-- ===== src/Bpjson/Runs.antt =====
-- Reading objects from a small JSON, at concrete inputs.
use text.Mathlib.TextEquality.{eq_iff}
use re_bacs_env.Prelude.{
  ◌≡◌, ◌≢◌, refl, arith, inl, inr, true, false, Option, none, some, [], ◌∷◌, String, Exception,
  runtime_error, ok,
}
use re_bacs_env.Bpjson.Nlohmann.{nlohmann_traits}
use re_bacs_env.Bpjson.Nlohmann.Small.{
  Json, empty_object, empty_list, number, with_item, with_member, find, store, subscript, elements,
  found, get_number,
}
use re_bacs_env.Bpjson.Nlohmann.Small.Laws.{small_json}
use re_bacs_env.Bpjson.RoundTrip.Values.{Fits}
use re_bacs_env.Bpjson.RoundTrip.{read-write_json}
use re_bacs_env.Bpjson.Traits.{JsonTraits}
use re_bacs_env.Bpjson.Types.{
  Ty, Fields, El, map, leaf, optional, array, vector, object, no_fields, field, declared,
}
use re_bacs_env.Bpjson.{
  MissingFields, ignore, throw_exception, read, read_to, write, write_from, read_field,
  rethrow_in_field, force_optional, json_fields_optional,
}
use re_bacs_env.Bpjson.Missing.{read-missing, read_to-missing_in_item}
use re_bacs_env.Bpjson.Versions.{left_out, read-write_json_versions}
use re_bacs_env.Bpjson.Safety.Outcomes.{Ends, Any}
use re_bacs_env.Bpjson.Safety.Sizes.{IsSized}
use re_bacs_env.Bpjson.Safety.{Answers, read-Ends}

abbrev traits : JsonTraits
traits = nlohmann_traits small_json

-- struct User { int id; std::optional<int> age; };
abbrev user_fields : Fields traits
user_fields = field "id" (leaf tt) (field "age" (optional (leaf tt)) no_fields)

abbrev user : Ty traits
user = object false user_fields

-- {"id": 5}
abbrev without_age : Json
without_age = with_member "id" (number 5) empty_object

read-user : read traits user ignore without_age ≡ ok (5, (none, tt))
unfolding read read_to declared read_field rethrow_in_field force_optional json_fields_optional find
read-user = refl

write-user :
    write traits user (5, (some 40, tt))
    ≡ ok (with_member "id" (number 5) (with_member "age" (number 40) empty_object))
unfolding write write_from rethrow_in_field find store subscript
write-user = refl

read-missing_example : read traits user throw_exception without_age ≢ ok (5, (none, tt))
unfolding find
read-missing_example =
    read-missing traits user_fields without_age "age" (5, (none, tt)) (inr (inl refl)) refl

read_to-missing_in_item_example :
    read_to traits (vector user) ignore (with_item without_age empty_list) []
    ≢ ok ((5, (none, tt)) ∷ [])
unfolding find elements
read_to-missing_in_item_example =
    read_to-missing_in_item traits user_fields ignore (with_item without_age empty_list) "age" []
      without_age [] [] ((5, (none, tt)) ∷ []) refl (inr (inl refl)) refl

-- struct Group { std::vector<User> users; std::map<std::string, int> marks; };
abbrev group : Ty traits
group = object false (field "users" (vector user) (field "marks" (map (leaf tt)) no_fields))

abbrev staff : El traits group
staff = ((5, (none, tt)) ∷ (6, (some 40, tt)) ∷ [], (("a", 1) ∷ ("b", 2) ∷ [], tt))

id-ne-age : (let s : String = "id" in s) ≢ "age"
id-ne-age = ground (arith, eq_iff "id" "age")

users-ne-marks : (let s : String = "users" in s) ≢ "marks"
users-ne-marks = ground (arith, eq_iff "users" "marks")

staff-Fits : Fits traits group staff
staff-Fits = (
  ((users-ne-marks, tt), (tt, tt)),
  (
    (
      (((id-ne-age, tt), (tt, tt)), (tt, (tt, tt))),
      ((((id-ne-age, tt), (tt, tt)), (tt, ((tt, tt), tt))), tt),
    ),
    (((((refl, refl), tt), (tt, tt)), (tt, (tt, tt))), tt),
  ),
)

read-write_json_example :
    (json : Json) × (write traits group staff ≡ ok json)
    × ((mode : MissingFields) → read traits group mode json ≡ ok staff)
read-write_json_example = read-write_json traits group staff staff-Fits

found-Ends : (o : Option Json) → Ends Any (found o)
found-Ends none = tt
found-Ends (some v) = tt

get_number-Ends : (json : Json) → Ends Any (get_number json)
get_number-Ends (number n) = tt
get_number-Ends _ = tt

small-Answers : Answers traits
small-Answers = record {
  get_typed_value = λ l json. get_number-Ends json;
  get_existing_subkey = λ json key. found-Ends (find json key);
}

-- int pair[2];
abbrev pair : Ty traits
pair = array 2 (leaf tt)

-- More items than the array has elements.
abbrev three_items : Json
three_items = with_item (number 5) (with_item (number 6) (with_item (number 7) empty_list))

read-Ends_example : Ends (IsSized traits pair) (read traits pair ignore three_items)
read-Ends_example = read-Ends traits small-Answers pair ignore three_items

abbrev missing_age : Exception
missing_age =
    runtime_error "bpjson::json_serializer.read_object: field 'age' caught unknown exception"

-- The earlier version of User has no age.
abbrev id_field : Fields traits
id_field = field "id" (leaf tt) no_fields

abbrev age_field : Fields traits
age_field = field "age" (optional (leaf tt)) no_fields

read-write_json_versions_example :
    ((json : Json) × (write traits (object false id_field) (5, tt) ≡ ok json)
      × ((mode : MissingFields)
          → read_to traits (object true user_fields) mode json (0xcccc, (some 3, tt))
            ≡ ok (5, left_out traits mode age_field (some 3, tt))))
    × ((json : Json) × (write traits user (5, (some 8, tt)) ≡ ok json)
        × ((mode : MissingFields)
            → read_to traits (object false id_field) mode json (0xcccc, tt) ≡ ok (5, tt)))
read-write_json_versions_example =
    read-write_json_versions traits false id_field age_field (5, tt) (0xcccc, tt) (some 8, tt)
      (some 3, tt) ((id-ne-age, tt), (tt, tt)) (tt, tt) ((tt, tt), tt) (tt, tt)
