-- ===== src/Plakpacs/Appenders/Laws.antt =====
-- plakpacs::container_appender for containers of a fixed size: elements fill it in order.
use re_bacs_env.Prelude.{
  ℕ, ◌<◌, ◌≡◌, ap, arith, List, [], ◌∷◌, ◌++◌, append_assoc, length, length-append, lt→ltb,
  set-append, refl, suc, ok, ltb, set, if◌then◌else◌, Bool-cases, inl, inr,
}
use re_bacs_env.Plakpacs.Appenders.{FixedAppender, append_fixed}

-- The guard keeps each element inside the container: appending returns.
abbrev pub appended {ℓ} : {A : Type ℓ} → ℕ → FixedAppender A → A → FixedAppender A
appended n a value =
    if ltb a.index n
    then record { container = set a.container a.index value; index = suc a.index }
    else a

pub append_fixed-appended {ℓ} :
    {A : Type ℓ} (n : ℕ) (a : FixedAppender A) (value : A)
    → append_fixed n a value ≡ ok (appended n a value)
unfolding append_fixed
append_fixed-appended n a value = elim (Bool-cases (ltb a.index n)) [
  | inl e ↦ rw e refl
  | inr e ↦ rw e refl
]

-- One element more in its place.
pub append_fixed-next {ℓ} :
    {A : Type ℓ} (size : ℕ) (done : List A) (o x : A) (olds : List A)
    → length done < size
    → append_fixed size (record { container = done ++ (o ∷ olds); index = length done }) x
      ≡ ok (record { container = (done ++ x ∷ []) ++ olds; index = length (done ++ x ∷ []) })
unfolding append_fixed
append_fixed-next {A = A} size done o x olds h =
    rw (lt→ltb (length done) size h, set-append done o x olds, append_assoc done (x ∷ []) olds)
      (ap (λ (n : ℕ). ok (record { container = done ++ (x ∷ olds); index = n }))
        (omega (arith, length-append done (x ∷ []))))
