-- ===== src/Bpacs.antt =====
-- bpacs/bpacs/bpacs.hpp: reflection of the fields of a class.
pub mod Iteration
mod Runs
use Prim.Native.Nat.{max}
use re_bacs_env.Prelude.{
  ℕ, zero, suc, Bool, true, false, Option, none, some, List, [], ◌∷◌, String, Outcome, ok,
  ill_formed, diverges, ◌>>=◌, if◌then◌else◌, ◌==◌, set,
}

-- field_meta<Holder, Index>: what a BP_DEFINE_REFL_FIELD says of one field. `type` is its C++ type.
pub record FieldMeta {ℓ} (T : Type ℓ) : Type ℓ where
  pub index : ℕ
  pub holder : String
  pub name : String
  pub type : T

-- The specializations of field_meta for one class, in any order.
abbrev pub Reflection {ℓ} : Type ℓ → Type ℓ
Reflection T = List (FieldMeta T)

module _ {ℓ} {T : Type ℓ} where
  unfoldable pub define_refl_field : String → ℕ → String → T → Reflection T → Reflection T
  define_refl_field holder index name type metas =
      record { index = index; holder = holder; name = name; type = type } ∷ metas

  -- field_meta<T, I>, if it is specialized.
  unfoldable pub field_meta : Reflection T → ℕ → Option (FieldMeta T)
  field_meta [] i = none
  field_meta (m ∷ metas) i = if m.index == i then some m else field_meta metas i

  unfoldable pub has_bp_reflection : Reflection T → Bool
  unfolding field_meta
  has_bp_reflection metas = elim (field_meta metas 0) [ none ↦ false | some m ↦ true ]

  -- The text that `field_meta<T, 0>::holder` is; with no field the call does not compile.
  unfoldable pub get_class_name : Reflection T → Option String
  unfolding field_meta
  get_class_name metas = elim (field_meta metas 0) [ none ↦ none | some m ↦ some m.holder ]

  -- All indices are below this number.
  unfoldable pub index_bound : Reflection T → ℕ
  index_bound [] = 0
  index_bound (m ∷ metas) = max (suc m.index) (index_bound metas)

-- The two versions of field_iterator: at an index without a field nothing is done, and otherwise `f`
-- is called on the field and `onward` on the next index.
unfoldable pub field_iterator {ℓ κ} :
    {T : Type ℓ} {S : Type κ}
    → Option (FieldMeta T)
    → (FieldMeta T → S → Outcome S)
    → (S → Outcome S)
    → S
    → Outcome S
field_iterator none f onward s = ok s
field_iterator (some m) f onward s = do s' ← f m s; onward s'

-- field_iterator<T, n>::iterate, on fuel.
unfoldable pub iterate {ℓ κ} :
    {T : Type ℓ} {S : Type κ} → ℕ → Reflection T → ℕ → (FieldMeta T → S → Outcome S) → S → Outcome S
unfolding field_iterator field_meta
iterate zero metas n f s = diverges
iterate (suc fuel) metas n f s =
    field_iterator (field_meta metas n) f (iterate fuel metas (suc n) f) s

-- The indices end below their bound, and one round more finds that.
unfoldable pub iterate_fields {ℓ κ} :
    {T : Type ℓ} {S : Type κ} → Reflection T → (FieldMeta T → S → Outcome S) → S → Outcome S
unfolding iterate index_bound
iterate_fields metas f s = iterate (suc (index_bound metas)) metas 0 f s

-- A reference to the member `i` of an object, which is here the list of its members by index.
-- An index past them has no member: such a get_field does not exist.
unfoldable pub get_field {ℓ} : {V : Type ℓ} → List V → ℕ → Outcome V
get_field [] i = ill_formed
get_field (v ∷ vs) zero = ok v
get_field (v ∷ vs) (suc i) = get_field vs i

-- `f` gets the field with its value and returns the new value; what it captures is the state `S`.
unfoldable pub iterate_object {ℓ κ μ} :
    {T : Type ℓ} {V : Type κ} {S : Type μ}
    → Reflection T
    → (FieldMeta T → V → S → Outcome (V × S))
    → List V × S
    → Outcome (List V × S)
unfolding iterate_fields get_field
iterate_object metas f start =
    iterate_fields metas
      (λ m (object, s). do
        v ← get_field object m.index
        (v', s') ← f m v s
        ok (set object m.index v', s'))
      start
