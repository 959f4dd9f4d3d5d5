-- ===== src/Bpjson/Safety/Outcomes.antt =====
-- Calls that return or throw, and what the readers do with a value in hand.
use text.Mathlib.Text.{◌==◌}
use Prim.Native.Nat.{Ordering}
use Prim.Native.String.{compare}
use re_bacs_env.Prelude.{
  ℕ, ◌≡◌, ◌∙◌, inl, inr, Bool-cases, List, [], ◌∷◌, String, Outcome, ok, throws, fault, diverges,
  ill_formed, runtime_error, unknown, ◌>>=◌, length, length-set, All, All-set, ltb,
}
use re_bacs_env.Plakpacs.Appenders.{FixedAppender}
use re_bacs_env.Plakpacs.Appenders.Laws.{appended}
use re_bacs_env.Bpjson.StdMap.{map_at, map_put}
use re_bacs_env.Bpjson.{rethrow_in_field}

-- The call returns a value with a property, or throws.
abbrev pub Ends {ℓ} : {A : Type ℓ} → (A → Type 0) → Outcome A → Type 0
Ends P (ok v) = P v
Ends P (throws e) = Unit {0}
Ends P fault = ⊥
Ends P diverges = ⊥
Ends P ill_formed = ⊥

abbrev pub Any {ℓ} : {A : Type ℓ} → A → Type 0
Any a = Unit {0}

pub bind-Ends {ℓ κ} :
    {A : Type ℓ} {B : Type κ} (P : A → Type 0) (Q : B → Type 0) (m : Outcome A) (f : A → Outcome B)
    → Ends P m
    → ((v : A) → P v → Ends Q (f v))
    → Ends Q (m >>= f)
bind-Ends P Q (ok v) f h hf = hf v h
bind-Ends P Q (throws e) f h hf = tt
bind-Ends P Q fault f h hf = absurd h
bind-Ends P Q diverges f h hf = absurd h
bind-Ends P Q ill_formed f h hf = absurd h

pub rethrow-Ends {ℓ} :
    {A : Type ℓ} (P : A → Type 0) (site site' name : String) (m : Outcome A)
    → Ends P m
    → Ends P (rethrow_in_field site site' name m)
unfolding rethrow_in_field
rethrow-Ends P site site' name (ok v) h = h
rethrow-Ends P site site' name (throws (runtime_error what)) h = tt
rethrow-Ends P site site' name (throws unknown) h = tt
rethrow-Ends P site site' name fault h = absurd h
rethrow-Ends P site site' name diverges h = absurd h
rethrow-Ends P site site' name ill_formed h = absurd h

module _ {ℓ} {A : Type ℓ} (P : A → Type 0) where
  pub appended-Sized :
      (n : ℕ) (a : FixedAppender A) (v : A)
      → (length a.container ≡ n) × All P a.container
      → P v
      → (length (appended n a v).container ≡ n) × All P (appended n a v).container
  appended-Sized n a v h hv = elim (Bool-cases (ltb a.index n)) [
    | inl e ↦ rw e (length-set a.container a.index v ∙ h.0, All-set P a.container a.index v h.1 hv)
    | inr e ↦ rw e h
  ]

  pub map_at-All :
      (fresh : A) (key : String) (entries : List (String × A))
      → P fresh
      → All (λ e. P e.1) entries
      → P (map_at fresh key entries)
  unfolding map_at
  map_at-All fresh key [] hf h = hf
  map_at-All fresh key ((k, v) ∷ entries) hf h = elim (Bool-cases (k == key)) [
    | inl e ↦ rw e h.0
    | inr e ↦ rw e (map_at-All fresh key entries hf h.1)
  ]

  pub map_put-All :
      (key : String) (v : A) (entries : List (String × A))
      → P v
      → All (λ e. P e.1) entries
      → All (λ e. P e.1) (map_put key v entries)
  unfolding map_put
  map_put-All key v [] hv h = (hv, tt)
  map_put-All key v ((k, w) ∷ entries) hv h =
      by_order (compare key k) (map_put-All key v entries hv h.1)
    where
      by_order :
          (o : Ordering)
          → All (λ e. P e.1) (map_put key v entries)
          → All
              (λ e. P e.1)
              (elim o as (λ o'. List (String × A)) [
                | Ordering.lt ↦ (key, v) ∷ (k, w) ∷ entries
                | Ordering.eq ↦ (key, v) ∷ entries
                | Ordering.gt ↦ (k, w) ∷ map_put key v entries
              ])
      by_order Ordering.lt put = (hv, h)
      by_order Ordering.eq put = (hv, h.1)
      by_order Ordering.gt put = (h.0, put)
