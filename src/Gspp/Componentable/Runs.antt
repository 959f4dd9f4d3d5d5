-- ===== src/Gspp/Componentable/Runs.antt =====
-- Componentable with numbers for the types and the objects.
use re_bacs_env.Prelude.{ℕ, ◌≡◌, ◌↔◌, true, false, none, some, List, [], ◌∷◌, ok, fault}
use native.Mathlib.Decide.{ℕ_discrete}
use re_bacs_env.Gspp.Componentable.{
  is_some, get_current_component_types, deref, get_component, get_existing_component, has_component,
  destroy_component,
}
use re_bacs_env.Gspp.Componentable.History.{Call, create, destroy, run, latest, queries-latest}
use re_bacs_env.Gspp.Componentable.Types.{types-latest}
use mathlib.Core.List.{Mem, Nodup}

-- Type 1 gets an object and another one; type 2 gets a null pointer; type 3 is destroyed.
abbrev calls : List (Call ℕ ℕ)
calls =
    destroy 3 ∷ create 2 none ∷ create 1 (some 11) ∷ create 3 (some 30) ∷ create 1 (some 10) ∷ []

queries-latest_example :
    (get_component ℕ_discrete 2 (run ℕ_discrete calls) ≡ none)
    × (has_component ℕ_discrete 2 (run ℕ_discrete calls) ≡ false)
    × ((v : ℕ)
        → (get_existing_component ℕ_discrete (λ t. "type") 2 (run ℕ_discrete calls) ≡ ok v)
          ↔ (none ≡ some v))
    × ((destroy_component ℕ_discrete 2 (run ℕ_discrete calls)).1 ≡ true)
    × (has_component ℕ_discrete 2 (run ℕ_discrete calls) ≡ true
        → (v : ℕ) × (deref (get_component ℕ_discrete 2 (run ℕ_discrete calls)) ≡ ok v))
    × (has_component ℕ_discrete 2 (run ℕ_discrete calls) ≡ false
        → deref (get_component ℕ_discrete 2 (run ℕ_discrete calls)) ≡ fault)
unfolding ℕ_discrete
queries-latest_example = queries-latest ℕ_discrete (λ t. "type") 2 calls

types-latest_example :
    ((type : ℕ)
      → Mem type (get_current_component_types (run ℕ_discrete calls))
        ↔ (is_some (latest ℕ_discrete type calls) ≡ true))
    × Nodup (get_current_component_types (run ℕ_discrete calls))
types-latest_example = types-latest ℕ_discrete calls
