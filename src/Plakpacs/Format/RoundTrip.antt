-- ===== src/Plakpacs/Format/RoundTrip.antt =====
-- plakpacs::serializer::read behind plakpacs::serializer::write.
use re_bacs_env.Prelude.{
  ℕ, ◌+◌, ◌%◌, ◌^◌, ◌≤◌, ◌<◌, ◌≡◌, refl, sym, ap, subst, arith, true, false, Option, none, some,
  List, [], ◌∷◌, ◌++◌, append-nil, append_assoc, String, Outcome, ok, ◌>>=◌, if◌then◌else◌, length,
  length-replicate, length-append, All, replicate,
}
use re_bacs_env.Plakpacs.Platform.{Platform}
use re_bacs_env.Plakpacs.Types.{
  Ty, Fields, El, Els, scalar, character, boolean, empty, c_string, string, sp_string, array,
  sp_array, vector, sp_vector, optional, constrained, object, no_fields, field, initial, initials,
}
use re_bacs_env.Plakpacs.Streams.{WriteStream, ReadStream, read_value, read_bool, size_mod}
use re_bacs_env.Plakpacs.Serializer.{
  write, read, read_object, read_sized, read_optional, read_present, rethrow_in_field, read_site,
  map_value,
}
use re_bacs_env.Plakpacs.Format.{encode, encode_fields, flat_encode, prefix, Fits, FitsAll, IsByte}
use re_bacs_env.Plakpacs.Format.Writing.{write-encode}
use re_bacs_env.Plakpacs.Format.Reading.{
  between, Takes, then-Takes, map-Takes, read_value-Takes, read_char-Takes, read_bool-Takes,
  read_string-Takes, read_sized-Takes, read_fixed-Takes, can_read-between,
}

pub flat_encode-chars : (v : List ℕ) → flat_encode (λ c. c ∷ []) v ≡ v
flat_encode-chars [] = refl
flat_encode-chars (c ∷ v) = ap (◌∷◌ c) (flat_encode-chars v)

module _ (p : Platform) where
  pub prefix-Takes : (n : ℕ) → n < 2 ^ 32 → Takes (read_value p 4) (prefix p n) n
  prefix-Takes n h =
      subst (λ k. Takes (read_value p 4) (prefix p n) k) (omega arith)
        (read_value-Takes p 4 (n % 2 ^ 32) (omega arith))

  optional-Takes {ℓ} :
      {A : Type ℓ} (get : ReadStream → Outcome (A × ReadStream)) (old o : Option A) (xs : List ℕ)
      → 0 < length xs
      → Takes (read_present p get old) xs o
      → Takes (read_optional p get old) xs o
  unfolding read_optional
  optional-Takes get old o xs hx h front back k =
      rw (can_read-between front xs back hx k) (h front back k)

  none-Takes {ℓ} :
      {A : Type ℓ} (get : ReadStream → Outcome (A × ReadStream))
      → Takes (read_optional p get none) (p.bytes_of 1 0) none
  unfolding read_present
  none-Takes get =
      optional-Takes get none none (p.bytes_of 1 0) (omega (arith, p.length-bytes_of 1 0))
        (λ front back k. rw (read_bool-Takes p false front back k))

  some-Takes {ℓ} :
      {A : Type ℓ} (get : ReadStream → Outcome (A × ReadStream)) (v : A) (xs : List ℕ)
      → Takes get xs v
      → Takes (read_optional p get none) (p.bytes_of 1 1 ++ xs) (some v)
  unfolding read_present
  some-Takes get v xs h =
      optional-Takes get none (some v) (p.bytes_of 1 1 ++ xs)
        (omega (arith, length-append (p.bytes_of 1 1) xs, p.length-bytes_of 1 1))
        (then-Takes (read_bool p) (λ has s. if has then map_value some (get s) else ok (none, s))
          (p.bytes_of 1 1) xs true (some v) (read_bool-Takes p true) (map-Takes get some xs v h))

  sp_string-Takes :
      (v : List ℕ)
      → (length v ≤ 65536) × All IsByte v
      → Takes (read p sp_string []) (encode p sp_string v) v
  unfolding read encode
  sp_string-Takes v h =
      then-Takes (read_value p 4)
        (λ size s. read_sized (read_value p 1) [] size s >>= λ (value, s').
          map_value (λ last. value) (read_value p 1 s'))
        (prefix p (length v)) (v ++ 0 ∷ []) (length v) v
        (prefix-Takes (length v) (omega (arith, h.0)))
        (then-Takes (read_sized (read_value p 1) [] (length v))
          (λ value s. map_value (λ last. value) (read_value p 1 s)) v (0 ∷ []) v v
          (rw flat_encode-chars at (
            read_sized-Takes IsByte (read_value p 1) (λ c. c ∷ []) (read_char-Takes p) v [] h.0
              h.1))
          (map-Takes (read_value p 1) (λ last. v) (0 ∷ []) 0 (read_char-Takes p 0 (omega arith))))

  read_object-field :
      (holder name : String) (t : Ty) (fs : Fields) (old v : El t) (olds vs : Els fs)
      (xs ys : List ℕ)
      → Takes (read p t old) xs v
      → Takes (read_object p holder fs olds) ys vs
      → Takes (read_object p holder (field name t fs) (old, olds)) (xs ++ ys) (v, vs)
  unfolding read rethrow_in_field
  read_object-field holder name t fs old v olds vs xs ys ht hfs =
      then-Takes (λ s. rethrow_in_field read_site holder name (read p t old s))
        (λ value s. map_value (λ values. (value, values)) (read_object p holder fs olds s)) xs ys v
        (v, vs) (λ front back k. rw (ht front back k))
        (map-Takes (read_object p holder fs olds) (λ values. (v, values)) ys vs hfs)

  mutual
    unfolding read encode initial

    pub read_type : (t : Ty) (v : El t) → Fits t v → Takes (read p t (initial t)) (encode p t v) v
    read_type (scalar w) v h = read_value-Takes p w v h
    read_type character v h = read_char-Takes p v h
    read_type boolean v h = read_bool-Takes p v
    read_type empty v h = absurd h
    read_type c_string v h = absurd h
    read_type string v h = read_string-Takes p v [] h
    read_type sp_string v h = sp_string-Takes v h
    read_type (array n t) v h = rw (← h.0) (
        read_fixed-Takes (Fits t) (read p t (initial t)) (encode p t) (read_type t) (length v) v []
          (replicate (length v) (initial t)) (omega arith) (length-replicate _ _) h.1)
    read_type (sp_array n t) v h = absurd h
    read_type (vector t) v h = absurd h
    read_type (sp_vector t) v h =
        then-Takes (read_value p 4) (read_sized (read p t (initial t)) []) (prefix p (length v))
          (flat_encode (encode p t) v) (length v) v (prefix-Takes (length v) (omega (arith, h.0)))
          (read_sized-Takes (Fits t) (read p t (initial t)) (encode p t) (read_type t) v [] h.0 h.1)
    read_type (optional t) none h = none-Takes (read p t (initial t))
    read_type (optional t) (some v) h =
        some-Takes (read p t (initial t)) v (encode p t v) (read_type t v h)
    read_type (constrained t cs) v h = λ front back k. rw (read_type t v h.0 front back k, h.1)
    read_type (object holder fs) v h = read_fields holder fs v h

    pub read_fields :
        (holder : String) (fs : Fields) (v : Els fs)
        → FitsAll fs v
        → Takes (read_object p holder fs (initials fs)) (encode_fields p fs v) v
    read_fields holder no_fields v h = λ front back k. rw (append-nil front)
    read_fields holder (field name t fs) (v, vs) h =
        read_object-field holder name t fs (initial t) v (initials fs) vs _ _ (read_type t v h.0)
          (read_fields holder fs vs h.1)

  -- `write` returns, and `read` into a fresh value gives back every value that fits its type and
  -- stops where `write` stopped, whatever the stream holds before and behind. The condition on the
  -- lengths is that the buffer's size is below 2^64.
  pub read-write :
      (t : Ty) (v : El t) (front back : List ℕ)
      → Fits t v
      → length front + length (encode p t v ++ back) < size_mod
      → (ws : WriteStream) × (write p t v (record { bytes = front }) ≡ ok ws)
        × (read p t (initial t) (record { bytes = ws.bytes ++ back; position = length front })
            ≡ ok (v, record { bytes = ws.bytes ++ back; position = length ws.bytes }))
  unfolding between
  read-write t v front back h k = (
    record { bytes = front ++ encode p t v },
    write-encode p t v (record { bytes = front }),
    subst
        (λ (bs : List ℕ).
          read p t (initial t) (record { bytes = bs; position = length front })
          ≡ ok (v, between (front ++ encode p t v) back))
        (sym (append_assoc front (encode p t v) back)) (read_type t v h front back k),
  )
