-- ===== src/Plakpacs/Serializer/Safety/Keeping.antt =====
-- Reads that stay in their buffer, and how they are put together.
use re_bacs_env.Prelude.{
  ℕ, zero, suc, ◌≤◌, ◌≡◌, refl, ap, ◌∙◌, arith, inl, inr, List, String, Outcome, ok, throws, fault,
  diverges, ill_formed, runtime_error, unknown, ◌>>=◌, length, Bool-cases, ltb,
}
use re_bacs_env.Plakpacs.Streams.{ReadStream}
use re_bacs_env.Plakpacs.Streams.Bounds.{IsOpen}
use re_bacs_env.Plakpacs.Appenders.{append, FixedAppender, append_fixed}
use re_bacs_env.Plakpacs.Appenders.Laws.{appended, append_fixed-appended}
use re_bacs_env.Plakpacs.Serializer.{
  read, read_each, read_fixed, read_sized, rethrow_in_field, map_value,
}

-- A read that returns keeps the bytes and moves forward within them; otherwise it throws, or is one
-- that does not compile. It does not leave the buffer and it ends.
abbrev pub Keeps {ℓ} : {A : Type ℓ} → ReadStream → Outcome (A × ReadStream) → Type 0
Keeps s (ok (v, s')) =
    (s'.bytes ≡ s.bytes) × (s.position ≤ s'.position) × (s'.position ≤ length s'.bytes)
Keeps s (throws e) = Unit {0}
Keeps s fault = ⊥
Keeps s diverges = ⊥
Keeps s ill_formed = Unit {0}

abbrev pub IsSafe {ℓ} : {A : Type ℓ} → ℕ → (ReadStream → Outcome (A × ReadStream)) → Type 0
IsSafe n read = (s : ReadStream) → IsOpen n s → Keeps s (read s)

IsOpen-next :
    (n : ℕ) (s s' : ReadStream)
    → IsOpen n s
    → s'.bytes ≡ s.bytes
    → s'.position ≤ length s'.bytes
    → IsOpen n s'
IsOpen-next n s s' h e b =
    let l : length s'.bytes ≡ length s.bytes = ap length e in
    record { within = b; fits = omega arith; wide = omega arith }

pub Keeps-onward {ℓ} :
    {A : Type ℓ} (s s' : ReadStream) (r : Outcome (A × ReadStream))
    → s'.bytes ≡ s.bytes
    → s.position ≤ s'.position
    → Keeps s' r
    → Keeps s r
Keeps-onward s s' (ok (v, t)) e b k = (k.0 ∙ e, omega arith, k.2)
Keeps-onward s s' (throws x) e b k = tt
Keeps-onward s s' fault e b k = k
Keeps-onward s s' diverges e b k = k
Keeps-onward s s' ill_formed e b k = tt

Keeps-bind {ℓ κ} :
    {A : Type ℓ} {B : Type κ} (n : ℕ) (s : ReadStream) (r : Outcome (A × ReadStream))
    (f : A → ReadStream → Outcome (B × ReadStream))
    → IsOpen n s
    → Keeps s r
    → ((a : A) → IsSafe n (f a))
    → Keeps s (r >>= λ (x, s'). f x s')
Keeps-bind n s (ok (v, s')) f h k hf =
    Keeps-onward s s' (f v s') k.0 k.1 (hf v s' (IsOpen-next n s s' h k.0 k.2))
Keeps-bind n s (throws x) f h k hf = tt
Keeps-bind n s fault f h k hf = k
Keeps-bind n s diverges f h k hf = k
Keeps-bind n s ill_formed f h k hf = tt

-- Two readings, one behind the other.
pub then-IsSafe {ℓ κ} :
    {A : Type ℓ} {B : Type κ} (n : ℕ) (m : ReadStream → Outcome (A × ReadStream))
    (f : A → ReadStream → Outcome (B × ReadStream))
    → IsSafe n m
    → ((a : A) → IsSafe n (f a))
    → IsSafe n (λ s. m s >>= λ (x, s'). f x s')
then-IsSafe n m f hm hf s h = Keeps-bind n s (m s) f h (hm s h) hf

pub return-IsSafe {ℓ} : {A : Type ℓ} (n : ℕ) (v : A) → IsSafe n (λ s. ok (v, s))
return-IsSafe n v s h = (refl, omega arith, h.within)

pub map-IsSafe {ℓ κ} :
    {A : Type ℓ} {B : Type κ} (n : ℕ) (m : ReadStream → Outcome (A × ReadStream)) (f : A → B)
    → IsSafe n m
    → IsSafe n (λ s. map_value f (m s))
map-IsSafe n m f hm = then-IsSafe n m (λ v s. ok (f v, s)) hm (λ v. return-IsSafe n (f v))

pub rethrow-Keeps {ℓ} :
    {A : Type ℓ} (site holder name : String) (s : ReadStream) (r : Outcome (A × ReadStream))
    → Keeps s r
    → Keeps s (rethrow_in_field site holder name r)
unfolding rethrow_in_field
rethrow-Keeps site holder name s (ok v) k = k
rethrow-Keeps site holder name s (throws (runtime_error e)) k = tt
rethrow-Keeps site holder name s (throws unknown) k = tt
rethrow-Keeps site holder name s fault k = k
rethrow-Keeps site holder name s diverges k = k
rethrow-Keeps site holder name s ill_formed k = tt

read_each-IsSafe {ℓ} :
    {A : Type ℓ} (n : ℕ) (get : ReadStream → Outcome (A × ReadStream))
    → IsSafe n get
    → (count : ℕ) (container : List A) → IsSafe n (read_each count get container)
unfolding read_each
read_each-IsSafe n get h zero container = return-IsSafe n container
read_each-IsSafe n get h (suc count) container =
    then-IsSafe n get (λ v. read_each count get (append container v)) h
      (λ v. read_each-IsSafe n get h count (append container v))

pub read_sized-IsSafe {ℓ} :
    {A : Type ℓ} (n : ℕ) (get : ReadStream → Outcome (A × ReadStream)) (container : List A)
    (size : ℕ)
    → IsSafe n get
    → IsSafe n (read_sized get container size)
unfolding read_sized
read_sized-IsSafe n get container size h s k = elim (Bool-cases (ltb 65536 size)) [
  | inl e ↦ rw e tt
  | inr e ↦ rw e (read_each-IsSafe n get h size container s k)
]

pub read_fixed-IsSafe {ℓ} :
    {A : Type ℓ} (n size : ℕ) (get : ReadStream → Outcome (A × ReadStream))
    → IsSafe n get
    → (count : ℕ) (a : FixedAppender A) → IsSafe n (read_fixed size count get a)
unfolding read_fixed
read_fixed-IsSafe n size get h zero a = return-IsSafe n a.container
read_fixed-IsSafe n size get h (suc count) a =
    then-IsSafe n get (λ v s. append_fixed size a v >>= λ a'. read_fixed size count get a' s) h
      (λ v s k.
        rw (append_fixed-appended size a v)
          (read_fixed-IsSafe n size get h count (appended size a v) s k))
