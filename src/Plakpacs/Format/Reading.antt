-- ===== src/Plakpacs/Format/Reading.antt =====
-- The leaves of plakpacs' reading, on a stream that continues with what was written.
use re_bacs_env.Prelude.{
  ℕ, zero, suc, ◌+◌, ◌^◌, ◌≤◌, ◌<◌, ◌≡◌, ◌≢◌, arith, Bool, true, false, subst, List, [], ◌∷◌, ◌++◌,
  append_assoc, append-nil, Outcome, ok, ◌>>=◌, if◌then◌else◌, length, All, take-append,
  drop-append, length-append, le→leb, ltb, ◌==◌,
}
use re_bacs_env.Plakpacs.Platform.{Platform}
use re_bacs_env.Plakpacs.Streams.{
  ReadStream, size_mod, can_read_num, can_read, fetch, read_bytes, read_value, read_bool,
}
use re_bacs_env.Plakpacs.Serializer.{
  read_chars, read_string, read_each, read_sized, read_fixed, map_value,
}
use re_bacs_env.Plakpacs.Appenders.{append, append_fixed}
use re_bacs_env.Plakpacs.Appenders.Laws.{append_fixed-next}
use re_bacs_env.Plakpacs.Format.{flat_encode, IsChar}

-- A stream with `front` read and `back` to come.
unfoldable pub between : List ℕ → List ℕ → ReadStream
between front back = record { bytes = front ++ back; position = length front }

-- A vector's size fits size_t.
abbrev pub Addressable : List ℕ → List ℕ → Type 0
Addressable front back = length front + length back < size_mod

-- Reading takes `bs` and returns `v`, whatever comes before and behind.
abbrev pub Takes {ℓ} : {A : Type ℓ} → (ReadStream → Outcome (A × ReadStream)) → List ℕ → A → Type ℓ
Takes {A = A} read bs v =
    (front back : List ℕ)
    → Addressable front (bs ++ back)
    → read (between front (bs ++ back)) ≡ ok (v, between (front ++ bs) back)

can_read_num-between :
    (front bs back : List ℕ)
    → Addressable front (bs ++ back)
    → can_read_num (between front (bs ++ back)) (length bs) ≡ true
unfolding can_read_num between
can_read_num-between front bs back h =
    le→leb _ _ (omega (arith, length-append front (bs ++ back), length-append bs back))

pub can_read-between :
    (front bs back : List ℕ)
    → 0 < length bs
    → Addressable front (bs ++ back)
    → can_read (between front (bs ++ back)) ≡ true
unfolding can_read can_read_num between
can_read-between front bs back hb h =
    le→leb _ _ (omega (arith, length-append front (bs ++ back), length-append bs back))

pub read_bytes-Takes : (bs : List ℕ) → Takes (read_bytes (length bs)) bs bs
unfolding read_bytes fetch
read_bytes-Takes bs front back h = rw (can_read_num-between front bs back h) (
    unfold between in
    rw (
      le→leb (length front + length bs) (length (front ++ (bs ++ back)))
          (omega (arith, length-append front (bs ++ back), length-append bs back)),
      drop-append front (bs ++ back),
      take-append bs back,
      append_assoc front bs back,
      length-append front bs,
    ))

ne→== : (a b : ℕ) → a ≢ b → (a == b) ≡ false
ne→== a b h = ground arith

le→ltb : (a b : ℕ) → b ≤ a → ltb a b ≡ false
le→ltb a b h = ground arith

-- Two readings, one behind the other.
pub then-Takes {ℓ κ} :
    {A : Type ℓ} {B : Type κ} (m : ReadStream → Outcome (A × ReadStream))
    (f : A → ReadStream → Outcome (B × ReadStream)) (xs ys : List ℕ) (a : A) (b : B)
    → Takes m xs a
    → Takes (f a) ys b
    → Takes (λ s. m s >>= λ (x, s'). f x s') (xs ++ ys) b
then-Takes m f xs ys a b hm hf front back h = rw (
  append_assoc xs ys back,
  hm front (ys ++ back) (rw append_assoc at h),
  hf (front ++ xs) back (
      omega (
        arith,
        h,
        length-append front xs,
        length-append (xs ++ ys) back,
        length-append xs ys,
        length-append ys back,
      )),
  append_assoc front xs ys,
)

-- A reading whose value is passed on through a function.
pub map-Takes {ℓ κ} :
    {A : Type ℓ} {B : Type κ} (m : ReadStream → Outcome (A × ReadStream)) (f : A → B) (xs : List ℕ)
    (a : A)
    → Takes m xs a
    → Takes (λ s. map_value f (m s)) xs (f a)
map-Takes m f xs a hm front back h = rw (hm front back h)

module _ (p : Platform) where
  pub read_value-Takes : (w v : ℕ) → v < 256 ^ w → Takes (read_value p w) (p.bytes_of w v) v
  unfolding read_value
  read_value-Takes w v hv front back h = rw (
    subst (λ n. Takes (read_bytes n) (p.bytes_of w v) (p.bytes_of w v)) (p.length-bytes_of w v)
        (read_bytes-Takes (p.bytes_of w v)) front back h,
    p.value_of-bytes_of w v hv,
  )

  pub read_char-Takes : (c : ℕ) → c < 256 → Takes (read_value p 1) (c ∷ []) c
  read_char-Takes c hc =
      subst (λ bs. Takes (read_value p 1) bs c) (p.bytes_of_one c hc)
        (read_value-Takes 1 c (omega arith))

  pub read_bool-Takes : (b : Bool) → Takes (read_bool p) (p.bytes_of 1 (if b then 1 else 0)) b
  unfolding read_bool
  read_bool-Takes true front back h =
      rw (read_value-Takes 1 1 (omega arith) front back h, p.bool_of_one)
  read_bool-Takes false front back h =
      rw (read_value-Takes 1 0 (omega arith) front back h, p.bool_of_zero)

  read_chars-Takes :
      (v : List ℕ) (fuel : ℕ) (acc : List ℕ)
      → length v < fuel
      → All IsChar v
      → Takes (read_chars p fuel acc) (v ++ 0 ∷ []) (acc ++ v)
  unfolding read_chars
  read_chars-Takes [] zero acc hf hv front back h = absurd (omega arith)
  read_chars-Takes [] (suc fuel) acc hf hv front back h =
      rw (read_char-Takes 0 (omega arith) front back h, append-nil acc)
  read_chars-Takes (c ∷ v) zero acc hf hv front back h = absurd (omega arith)
  read_chars-Takes (c ∷ v) (suc fuel) acc hf hv front back h =
      then-Takes (read_value p 1)
        (λ x s'. if x == 0 then ok (acc, s') else read_chars p fuel (acc ++ x ∷ []) s') (c ∷ [])
        (v ++ 0 ∷ []) c (acc ++ (c ∷ v)) (read_char-Takes c hv.0.0)
        (λ front' back' k. rw (ne→== c 0 hv.0.1) (
          rw (append_assoc acc (c ∷ []) v) at
            (read_chars-Takes v fuel (acc ++ c ∷ []) (omega arith) hv.1 front' back' k)))
        front back h

  pub read_string-Takes :
      (v old : List ℕ) → All IsChar v → Takes (read_string p old) (v ++ 0 ∷ []) (old ++ v)
  unfolding read_string
  read_string-Takes v old hv front back h =
      read_chars-Takes v (suc (length (between front ((v ++ 0 ∷ []) ++ back)).bytes)) old
        (unfold between in
          omega (
            arith,
            length-append front ((v ++ 0 ∷ []) ++ back),
            length-append (v ++ 0 ∷ []) back,
            length-append v (0 ∷ []),
          ))
        hv front back h

pub read_each-Takes {ℓ} :
    {A : Type ℓ} (P : A → Type 0) (read : ReadStream → Outcome (A × ReadStream)) (enc : A → List ℕ)
    → ((x : A) → P x → Takes read (enc x) x)
    → (xs acc : List A) → All P xs
    → Takes (read_each (length xs) read acc) (flat_encode enc xs) (acc ++ xs)
unfolding read_each append
read_each-Takes P read enc h [] acc hx = λ front back k. rw (append-nil acc, append-nil front)
read_each-Takes P read enc h (x ∷ xs) acc hx = rw (append_assoc acc (x ∷ []) xs) at (
    then-Takes read (λ y. read_each (length xs) read (acc ++ y ∷ [])) (enc x) (flat_encode enc xs) x
      ((acc ++ x ∷ []) ++ xs) (h x hx.0) (read_each-Takes P read enc h xs (acc ++ x ∷ []) hx.1))

-- Behind a size prefix that the limit lets through.
pub read_sized-Takes {ℓ} :
    {A : Type ℓ} (P : A → Type 0) (read : ReadStream → Outcome (A × ReadStream)) (enc : A → List ℕ)
    → ((x : A) → P x → Takes read (enc x) x)
    → (xs acc : List A) → length xs ≤ 65536
    → All P xs
    → Takes (read_sized read acc (length xs)) (flat_encode enc xs) (acc ++ xs)
unfolding read_sized
read_sized-Takes P read enc h xs acc hn hx front back k =
    rw (le→ltb 65536 (length xs) hn) (read_each-Takes P read enc h xs acc hx front back k)

-- The elements written so far are in front, and as many old ones as are still to come behind.
pub read_fixed-Takes {ℓ} :
    {A : Type ℓ} (P : A → Type 0) (read : ReadStream → Outcome (A × ReadStream)) (enc : A → List ℕ)
    → ((x : A) → P x → Takes read (enc x) x)
    → (size : ℕ) (xs done olds : List A) → length done + length xs ≡ size
    → length olds ≡ length xs
    → All P xs
    → Takes
        (read_fixed size
          (length xs)
          read
          (record { container = done ++ olds; index = length done }))
        (flat_encode enc xs)
        (done ++ xs)
unfolding read_fixed append_fixed
read_fixed-Takes P read enc h size [] done [] hs ho hx = λ front back k. rw (append-nil front)
read_fixed-Takes P read enc h size [] done (o ∷ olds) hs ho hx = absurd (omega arith)
read_fixed-Takes P read enc h size (x ∷ xs) done [] hs ho hx = absurd (omega arith)
read_fixed-Takes P read enc h size (x ∷ xs) done (o ∷ olds) hs ho hx =
    rw (append_assoc done (x ∷ []) xs) at (
      then-Takes read
        (λ y s.
          append_fixed size (record { container = done ++ (o ∷ olds); index = length done }) y
          >>= λ a'. read_fixed size (length xs) read a' s)
        (enc x) (flat_encode enc xs) x ((done ++ x ∷ []) ++ xs) (h x hx.0)
        (rw (append_fixed-next size done o x olds (omega arith)) (
          read_fixed-Takes P read enc h size xs (done ++ x ∷ []) olds
            (omega (arith, length-append done (x ∷ []))) (omega arith) hx.1)))
