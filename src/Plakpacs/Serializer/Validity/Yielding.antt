-- ===== src/Plakpacs/Serializer/Validity/Yielding.antt =====
-- Reads whose results have a property, and how they are put together.
use re_bacs_env.Prelude.{
  All-append, ℕ, zero, suc, ◌+◌, ◌≤◌, ◌≡◌, ◌≢◌, arith, false, inl, inr, List, [], ◌∷◌, ◌++◌,
  append-nil, String, Outcome, ok, throws, fault, diverges, ill_formed, runtime_error, unknown,
  ◌>>=◌, length, length-append, All, Bool-cases, ◌==◌, ltb,
}
use re_bacs_env.Plakpacs.Streams.{ReadStream}
use re_bacs_env.Plakpacs.Appenders.{append, append_fixed}
use re_bacs_env.Plakpacs.Appenders.Laws.{append_fixed-next}
use re_bacs_env.Plakpacs.Serializer.{read, read_each, read_fixed, read_sized, rethrow_in_field}

abbrev Returns {ℓ} : {A : Type ℓ} → (A → Type 0) → Outcome (A × ReadStream) → Type 0
Returns P (ok (v, s)) = P v
Returns P (throws e) = Unit {0}
Returns P fault = Unit {0}
Returns P diverges = Unit {0}
Returns P ill_formed = Unit {0}

abbrev pub Yields {ℓ} :
    {A : Type ℓ} → (A → Type 0) → (ReadStream → Outcome (A × ReadStream)) → Type 0
Yields P read = (s : ReadStream) → Returns P (read s)

Returns-bind {ℓ κ} :
    {A : Type ℓ} {B : Type κ} (P : A → Type 0) (Q : B → Type 0) (r : Outcome (A × ReadStream))
    (f : A → ReadStream → Outcome (B × ReadStream))
    → Returns P r
    → ((a : A) → P a → Yields Q (f a))
    → Returns Q (r >>= λ (x, s). f x s)
Returns-bind P Q (ok (v, s)) f h hf = hf v h s
Returns-bind P Q (throws e) f h hf = tt
Returns-bind P Q fault f h hf = tt
Returns-bind P Q diverges f h hf = tt
Returns-bind P Q ill_formed f h hf = tt

-- Two readings, one behind the other.
pub then-Yields {ℓ κ} :
    {A : Type ℓ} {B : Type κ} (P : A → Type 0) (Q : B → Type 0)
    (m : ReadStream → Outcome (A × ReadStream)) (f : A → ReadStream → Outcome (B × ReadStream))
    → Yields P m
    → ((a : A) → P a → Yields Q (f a))
    → Yields Q (λ s. m s >>= λ (x, s'). f x s')
then-Yields P Q m f hm hf s = Returns-bind P Q (m s) f (hm s) hf

abbrev pub Any {ℓ} : {A : Type ℓ} → A → Type 0
Any a = Unit {0}

pub Any-Returns {ℓ} : {A : Type ℓ} (r : Outcome (A × ReadStream)) → Returns Any r
Any-Returns (ok (v, s)) = tt
Any-Returns (throws e) = tt
Any-Returns fault = tt
Any-Returns diverges = tt
Any-Returns ill_formed = tt

read_each-Yields {ℓ} :
    {A : Type ℓ} (P : A → Type 0) (get : ReadStream → Outcome (A × ReadStream))
    → Yields P get
    → (count size : ℕ) (container : List A) → length container + count ≡ size
    → All P container
    → Yields (λ v. (length v ≡ size) × All P v) (read_each count get container)
unfolding read_each append
read_each-Yields P get h zero size container e a = λ s. (omega arith, a)
read_each-Yields P get h (suc count) size container e a =
    then-Yields P _ get (λ v. read_each count get (container ++ v ∷ [])) h
      (λ v hv.
        read_each-Yields P get h count size (container ++ v ∷ [])
          (omega (arith, length-append container (v ∷ [])))
          (All-append P container (v ∷ []) a (hv, tt)))

Returns-mono {ℓ} :
    {A : Type ℓ} (P Q : A → Type 0)
    → ((v : A) → P v → Q v)
    → (r : Outcome (A × ReadStream)) → Returns P r
    → Returns Q r
Returns-mono P Q h (ok (v, s)) k = h v k
Returns-mono P Q h (throws e) k = tt
Returns-mono P Q h fault k = tt
Returns-mono P Q h diverges k = tt
Returns-mono P Q h ill_formed k = tt

ltb-le : (a b : ℕ) → ltb a b ≡ false → b ≤ a
ltb-le a b h = ground arith

pub read_sized-Yields {ℓ} :
    {A : Type ℓ} (P : A → Type 0) (get : ReadStream → Outcome (A × ReadStream)) (size : ℕ)
    → Yields P get
    → Yields (λ v. (length v ≤ 65536) × All P v) (read_sized get [] size)
unfolding read_sized
read_sized-Yields P get size h s = elim (Bool-cases (ltb 65536 size)) [
  | inl e ↦ rw e tt
  | inr e ↦ rw e (
      Returns-mono (λ v. (length v ≡ size) × All P v) _
        (λ v (l, a). (omega (arith, ltb-le 65536 size e), a)) (read_each size get [] s)
        (read_each-Yields P get h size size [] (omega arith) tt s))
]

pub read_fixed-Yields {ℓ} :
    {A : Type ℓ} (P : A → Type 0) (get : ReadStream → Outcome (A × ReadStream))
    → Yields P get
    → (count size : ℕ) (done olds : List A) → length done + count ≡ size
    → length olds ≡ count
    → All P done
    → Yields
        (λ v. (length v ≡ size) × All P v)
        (read_fixed size count get (record { container = done ++ olds; index = length done }))
unfolding read_fixed
read_fixed-Yields P get h zero size done [] e o a = λ s. rw append-nil (omega arith, a)
read_fixed-Yields P get h zero size done (x ∷ olds) e o a = absurd (omega arith)
read_fixed-Yields P get h (suc count) size done [] e o a = absurd (omega arith)
read_fixed-Yields P get h (suc count) size done (x ∷ olds) e o a =
    then-Yields P _ get
      (λ v s.
        append_fixed size (record { container = done ++ (x ∷ olds); index = length done }) v
        >>= λ a'. read_fixed size count get a' s)
      h
      (λ v hv. rw (append_fixed-next size done x v olds (omega arith)) (
        read_fixed-Yields P get h count size (done ++ v ∷ []) olds
          (omega (arith, length-append done (v ∷ []))) (omega arith)
          (All-append P done (v ∷ []) a (hv, tt))))

pub ne-zero : (c : ℕ) → (c == 0) ≡ false → c ≢ 0
ne-zero c h = ground arith

pub Returns-rethrow {ℓ} :
    {A : Type ℓ} (P : A → Type 0) (site holder name : String) (r : Outcome (A × ReadStream))
    → Returns P r
    → Returns P (rethrow_in_field site holder name r)
unfolding rethrow_in_field
Returns-rethrow P site holder name (ok v) k = k
Returns-rethrow P site holder name (throws (runtime_error e)) k = tt
Returns-rethrow P site holder name (throws unknown) k = tt
Returns-rethrow P site holder name fault k = tt
Returns-rethrow P site holder name diverges k = tt
Returns-rethrow P site holder name ill_formed k = tt
