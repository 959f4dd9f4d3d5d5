-- ===== src/Plakpacs/Appenders.antt =====
-- plakpacs::container_appender, in its two versions.
pub mod Laws
use re_bacs_env.Prelude.{
  ℕ, suc, List, [], ◌∷◌, ◌++◌, if◌then◌else◌, ltb, set, Outcome, ok, fault, ◌>>=◌,
}

-- The version for growing containers: `push_back`.
unfoldable pub append {ℓ} : {A : Type ℓ} → List A → A → List A
append container value = container ++ value ∷ []

-- The version for containers of a fixed size.
pub record FixedAppender {ℓ} (A : Type ℓ) : Type ℓ where
  pub container : List A
  pub index : ℕ

-- `(*_container)[index] = value` for a container of `n` elements: behind its end there is other memory.
unfoldable pub assign {ℓ} : {A : Type ℓ} → ℕ → ℕ → A → List A → Outcome (List A)
assign n index value container = if ltb index n then ok (set container index value) else fault

-- `n` is `std::tuple_size<T>::value`; what does not fit is dropped.
unfoldable pub append_fixed {ℓ} : {A : Type ℓ} → ℕ → FixedAppender A → A → Outcome (FixedAppender A)
unfolding assign
append_fixed n a value =
    if ltb a.index n
    then (assign n a.index value a.container >>= λ container.
        ok (record { container = container; index = suc a.index }))
    else ok a
