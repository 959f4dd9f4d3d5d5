-- ===== src/Prelude/Outcomes.antt =====
-- How a call ends: it returns, it throws, or it touches memory out of bounds. The last two are no
-- outcomes of a run: the fuel of a modelled loop runs out, or the call does not compile.
use Prim.Native.String
use Prim.Native.String.{String}
use mathlib.Core.List.{List, [], ◌∷◌}
use mathlib.Core.Logic.{◌⊎◌, inl, inr}
use mathlib.Core.Path.{◌≡◌, refl, ap}

-- An exception derived from `std::exception` is the text of its `what()`; any other has no text.
pub data Exception : Type 0 where
  runtime_error : String → Exception
  unknown : Exception

pub data Outcome {ℓ} (A : Type ℓ) : Type ℓ where
  ok : A → Outcome A
  throws : Exception → Outcome A
  fault : Outcome A
  diverges : Outcome A
  ill_formed : Outcome A

infixl 5 ◌>>=◌
abbrev pub ◌>>=◌ {ℓ κ} : {A : Type ℓ} {B : Type κ} → Outcome A → (A → Outcome B) → Outcome B
ok a >>= f = f a
throws e >>= f = throws e
fault >>= f = fault
diverges >>= f = diverges
ill_formed >>= f = ill_formed

infixl 5 ◌>>-◌
-- A call that can throw and the state as the call leaves it, also if it throws: what comes behind it.
abbrev pub ◌>>-◌ {ℓ κ μ} :
    {S : Type ℓ} {B : Type κ} {C : Type μ} → Outcome B × S → (B → S → Outcome C × S) → Outcome C × S
(ok b, st) >>- f = f b st
(throws e, st) >>- f = (throws e, st)
(fault, st) >>- f = (fault, st)
(diverges, st) >>- f = (diverges, st)
(ill_formed, st) >>- f = (ill_formed, st)

pub >>--eq-ok {ℓ κ μ} :
    {S : Type ℓ} {B : Type κ} {C : Type μ} (m : Outcome B × S) (f : B → S → Outcome C × S) (st' : S)
    (x : C)
    → (m >>- f) ≡ (ok x, st')
    → (b : B) × (st : S) × (m ≡ (ok b, st)) × (f b st ≡ (ok x, st'))
>>--eq-ok (ok b, st) f st' x h = (b, st, refl, h)
>>--eq-ok (throws e, st) f st' x h = cc (ap (λ r. r.0) h)
>>--eq-ok (fault, st) f st' x h = cc (ap (λ r. r.0) h)
>>--eq-ok (diverges, st) f st' x h = cc (ap (λ r. r.0) h)
>>--eq-ok (ill_formed, st) f st' x h = cc (ap (λ r. r.0) h)

-- What returns from two calls in a row has returned from each.
pub >>=-eq-ok {ℓ κ} :
    {A : Type ℓ} {B : Type κ} (first : Outcome A) (second : A → Outcome B) {value : B}
    → (first >>= second) ≡ ok value
    → (x : A) × (first ≡ ok x) × (second x ≡ ok value)
>>=-eq-ok (ok x) second returned = (x, refl, returned)
>>=-eq-ok (throws e) second returned = cc
>>=-eq-ok fault second returned = cc
>>=-eq-ok diverges second returned = cc
>>=-eq-ok ill_formed second returned = cc

-- Inversion of a bind that throws.
pub bind-eq-throws {ℓ κ} :
    {A : Type ℓ} {B : Type κ} (m : Outcome A) (f : A → Outcome B) (e : Exception)
    → (m >>= f) ≡ throws e
    → (m ≡ throws e) ⊎ ((a : A) × (f a ≡ throws e))
bind-eq-throws (ok a) f e h = inr (a, h)
bind-eq-throws (throws x) f e h = inl (cc)
bind-eq-throws fault f e h = cc
bind-eq-throws diverges f e h = cc
bind-eq-throws ill_formed f e h = cc

-- A text put together with `+`.
abbrev pub concat : List String → String
concat [] = ""
concat (s ∷ ss) = String.◌++◌ s (concat ss)

pub bind_assoc {ℓ κ μ} :
    {A : Type ℓ} {B : Type κ} {C : Type μ} (m : Outcome A) (f : A → Outcome B) (g : B → Outcome C)
    → (m >>= f >>= g) ≡ (m >>= λ a. f a >>= g)
bind_assoc (ok a) f g = refl
bind_assoc (throws e) f g = refl
bind_assoc fault f g = refl
bind_assoc diverges f g = refl
bind_assoc ill_formed f g = refl

-- Binds of one outcome into functions that agree.
pub bind_congr {ℓ κ} :
    {A : Type ℓ} {B : Type κ} (m : Outcome A) (f g : A → Outcome B)
    → ((a : A) → f a ≡ g a)
    → (m >>= f) ≡ (m >>= g)
bind_congr (ok a) f g h = h a
bind_congr (throws e) f g h = refl
bind_congr fault f g h = refl
bind_congr diverges f g h = refl
bind_congr ill_formed f g h = refl
