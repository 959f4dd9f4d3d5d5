-- ===== src/Bpacs/Runs.antt =====
-- The reflection theorems at a class with two fields, defined out of order.
use re_bacs_env.Prelude.{
  ℕ, zero, suc, ◌+◌, ◌≡◌, refl, arith, List, [], ◌∷◌, String, Outcome, ok, throws, unknown,
  if◌then◌else◌, ltb,
}
use re_bacs_env.Bpacs.{
  FieldMeta, Reflection, field_meta, iterate_fields, iterate_object, index_bound, iterate,
  field_iterator, get_field,
}
use re_bacs_env.Bpacs.Iteration.{Reflects, update_each, iterate_object-update_each}

-- The type of a field is the number of its bytes.
abbrev x_field : FieldMeta ℕ
x_field = record { index = 0; holder = "Point"; name = "x"; type = 4 }

abbrev y_field : FieldMeta ℕ
y_field = record { index = 1; holder = "Point"; name = "y"; type = 2 }

abbrev point : Reflection ℕ
point = y_field ∷ x_field ∷ []

abbrev names : FieldMeta ℕ → List String → Outcome (List String)
names m seen = ok (m.name ∷ seen)

-- Values above 9 are refused.
abbrev add_size : FieldMeta ℕ → ℕ → ℕ → Outcome (ℕ × ℕ)
add_size m v total = if ltb 9 v then throws unknown else ok (suc v, total + m.type)

point-Reflects : Reflects point (x_field ∷ y_field ∷ [])
unfolding field_meta
point-Reflects zero = refl
point-Reflects (suc zero) = refl
point-Reflects (suc (suc i)) = ground arith

iterate_point : iterate_object point add_size (3 ∷ 8 ∷ [], 0) ≡ ok (4 ∷ 9 ∷ [], 6)
unfolding iterate_object iterate_fields iterate index_bound field_iterator field_meta get_field
iterate_point = refl

iterate_object-update_each_example :
    iterate_object point add_size (3 ∷ 8 ∷ [], 0)
    ≡ update_each add_size (x_field ∷ y_field ∷ []) (3 ∷ 8 ∷ []) 0
iterate_object-update_each_example =
    iterate_object-update_each add_size point (x_field ∷ y_field ∷ []) (3 ∷ 8 ∷ []) 0 point-Reflects
      refl
