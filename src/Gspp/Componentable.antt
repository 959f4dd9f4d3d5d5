-- ===== src/Gspp/Componentable.antt =====
-- gspp-net/gspp/componentable.hpp: objects by their type. The mutex makes each call one step.
pub mod History
pub mod Types
mod Runs
use mathlib.Core.Logic.{ite}
use re_bacs_env.Prelude.{
  Bool, true, false, Option, none, some, List, [], ◌∷◌, String, Outcome, ok, throws, fault,
  runtime_error, concat,
}

-- `_components`: `K` stands for std::type_index, and a shared_ptr is an object of `V` or null.
abbrev pub Components : Type 0 → Type 0 → Type 0
Components K V = List (K × Option V)

abbrev pub or_null {ℓ} : {A : Type ℓ} → Option (Option A) → Option A
or_null none = none
or_null (some p) = p

abbrev pub is_some {ℓ} : {A : Type ℓ} → Option A → Bool
is_some none = false
is_some (some a) = true

-- A pointer to an object, or null.
abbrev pub ComponentRef {ℓ} : Type ℓ → Type ℓ
ComponentRef V = Option V

-- `*ref` and `ref->`: nothing stops a null reference.
unfoldable pub deref {ℓ} : {V : Type ℓ} → ComponentRef V → Outcome V
deref none = fault
deref (some v) = ok v

-- `GetExistingComponent` behind its `GetComponent`.
abbrev pub or_throw {ℓ} : {A : Type ℓ} → String → ComponentRef A → Outcome A
or_throw name none =
    throws (runtime_error (concat ("Componentable: Component " ∷ name ∷ " not found" ∷ [])))
or_throw name (some v) = ok v

module _ {K V : Type 0} where
  unfoldable pub get_current_component_types : Components K V → List K
  get_current_component_types [] = []
  get_current_component_types ((type, p) ∷ components) =
      type ∷ get_current_component_types components

module _ {K V : Type 0} (same : Discrete K) where
  unfoldable pub find : K → Components K V → Option (Option V)
  find type [] = none
  find type ((t, p) ∷ components) = ite (same t type) (some p) (find type components)

  -- `_components[type] = from`, for each version of CreateComponent.
  unfoldable pub create_component : K → Option V → Components K V → Components K V
  create_component type from [] = (type, from) ∷ []
  create_component type from ((t, p) ∷ components) =
      ite (same t type) ((t, from) ∷ components) ((t, p) ∷ create_component type from components)

  -- The reference is null if there is no component, or a null one.
  unfoldable pub get_component : K → Components K V → ComponentRef V
  unfolding find
  get_component type components = or_null (find type components)

  -- `name` gives a type_index's name.
  unfoldable pub get_existing_component : (K → String) → K → Components K V → Outcome V
  unfolding get_component
  get_existing_component name type components = or_throw (name type) (get_component type components)

  unfoldable pub has_component : K → Components K V → Bool
  unfolding find
  has_component type components = elim (find type components) [ none ↦ false | some p ↦ is_some p ]

  -- The new map, and whether there was a component.
  unfoldable pub destroy_component : K → Components K V → Components K V × Bool
  destroy_component type [] = ([], false)
  destroy_component type ((t, p) ∷ components) =
      let (rest, found) = destroy_component type components in
      ite (same t type) (components, true) ((t, p) ∷ rest, found)
