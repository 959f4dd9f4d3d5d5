-- ===== src/Plakpacs/Serializer/Safety.antt =====
-- plakpacs::serializer::read on any bytes: memory safety and termination.
pub mod Keeping
use Prim.Native.Nat.{max}
use re_bacs_env.Prelude.{
  ℕ, zero, suc, ◌+◌, ◌≤◌, ◌<◌, ◌≡◌, refl, ◌⊎◌, arith, Bool, true, false, inl, inr, Option, some,
  List, [], ◌∷◌, ◌++◌, String, Outcome, Exception, ok, throws, runtime_error, ◌>>=◌, length, take,
  drop, Bool-cases, if◌then◌else◌, ◌==◌,
}
use re_bacs_env.Plakpacs.Platform.{Platform}
use re_bacs_env.Plakpacs.Types.{
  Ty, Fields, Constraint, El, Els, scalar, character, boolean, empty, c_string, string, sp_string,
  array, sp_array, vector, sp_vector, optional, constrained, object, no_fields, field, initial,
  check_pp_constraints,
}
use re_bacs_env.Plakpacs.Streams.{ReadStream, size_mod, read_value, read_bool, can_read}
use re_bacs_env.Plakpacs.Streams.Bounds.{IsOpen, read_bytes-Exact}
use re_bacs_env.Plakpacs.Serializer.{
  read, read_object, read_chars, read_string, read_sized, read_optional, read_present,
  rethrow_in_field, read_site, map_value,
}
use re_bacs_env.Plakpacs.Serializer.Safety.Keeping.{
  IsSafe, Keeps, Keeps-onward, map-IsSafe, read_fixed-IsSafe, read_sized-IsSafe, rethrow-Keeps,
  return-IsSafe, then-IsSafe,
}

-- The size of the widest scalar that a read of the type takes at once.
unfoldable mutual
  pub widest : Ty → ℕ
  widest (scalar w) = w
  widest character = 1
  widest boolean = 1
  widest empty = 0
  widest c_string = 0
  widest string = 1
  widest sp_string = 4
  widest (array n t) = widest t
  widest (sp_array n t) = 0
  widest (vector t) = 0
  widest (sp_vector t) = max 4 (widest t)
  widest (optional t) = max 1 (widest t)
  widest (constrained t cs) = widest t
  widest (object holder fs) = widest_field fs

  pub widest_field : Fields → ℕ
  widest_field no_fields = 0
  widest_field (field name t fs) = max (widest t) (widest_field fs)

module _ (p : Platform) where
  -- A scalar's read moves by its width, or throws.
  read_value-step :
      (w : ℕ) (s : ReadStream)
      → IsOpen w s
      → ((v : ℕ) × (read_value p w s ≡ ok (v, record s { position = s.position + w }))
          × (s.position + w ≤ length s.bytes))
        ⊎ ((e : Exception) × (read_value p w s ≡ throws e))
  unfolding read_value
  read_value-step w s h = elim (read_bytes-Exact w s h) [
    | inl (b, e) ↦ inl (p.value_of (take w (drop s.position s.bytes)), rw e, b)
    | inr (b, e) ↦ inr (
      runtime_error "plakpacs::read_stream.read<T>() => Can't read past the end of the stream",
      rw e,
    )
  ]

  read_value-IsSafe : (n w : ℕ) → w ≤ n → IsSafe n (read_value p w)
  read_value-IsSafe n w l s h =
      elim (read_value-step w s (record { within = h.within; fits = h.fits; wide = omega arith })) [
        | inl (v, e, b) ↦ rw e (refl, omega arith, b)
        | inr (x, e) ↦ rw e tt
      ]

  read_bool-IsSafe : (n : ℕ) → 1 ≤ n → IsSafe n (read_bool p)
  unfolding read_bool
  read_bool-IsSafe n l = map-IsSafe n (read_value p 1) p.bool_of (read_value-IsSafe n 1 l)

  chars_round :
      (fuel : ℕ) (acc : List ℕ) (s : ReadStream)
      → IsOpen 1 s
      → length s.bytes < suc fuel + s.position
      → (c : ℕ) → s.position + 1 ≤ length s.bytes
      → ((acc' : List ℕ) (s' : ReadStream)
          → IsOpen 1 s'
          → length s'.bytes < fuel + s'.position
          → Keeps s' (read_chars p fuel acc' s'))
      → Keeps s (
          if c == 0
          then ok (acc, record s { position = s.position + 1 })
          else read_chars p fuel (acc ++ c ∷ []) (record s { position = s.position + 1 }))
  chars_round fuel acc s h f c b again =
      let next : ReadStream = record s { position = s.position + 1 } in
      elim (Bool-cases (c == 0)) [
        | inl z ↦ rw z (refl, omega arith, b)
        | inr z ↦ rw z (
            Keeps-onward s next (read_chars p fuel (acc ++ c ∷ []) next) refl (omega arith) (
              again (acc ++ c ∷ []) next (record { within = b; fits = h.fits; wide = h.wide })
                (omega arith)))
      ]

  read_chars-Keeps :
      (fuel : ℕ) (acc : List ℕ) (s : ReadStream)
      → IsOpen 1 s
      → length s.bytes < fuel + s.position
      → Keeps s (read_chars p fuel acc s)
  unfolding read_chars
  read_chars-Keeps zero acc s h f = absurd (omega (arith, h.within))
  read_chars-Keeps (suc fuel) acc s h f = elim (read_value-step 1 s h) [
    | inl (c, e, b) ↦ rw e (chars_round fuel acc s h f c b (λ x. read_chars-Keeps fuel x))
    | inr (x, e) ↦ rw e tt
  ]

  read_string-IsSafe : (n : ℕ) (old : List ℕ) → 1 ≤ n → IsSafe n (read_string p old)
  unfolding read_string
  read_string-IsSafe n old l s h =
      read_chars-Keeps (suc (length s.bytes)) old s
        (record { within = h.within; fits = h.fits; wide = omega arith }) (omega arith)

  present-IsSafe {ℓ} :
      {A : Type ℓ} (n : ℕ) (get : ReadStream → Outcome (A × ReadStream)) (old : Option A)
      → IsSafe n get
      → (has : Bool) → IsSafe n (λ s. if has then map_value some (get s) else ok (old, s))
  present-IsSafe n get old h true = map-IsSafe n get some h
  present-IsSafe n get old h false = return-IsSafe n old

  read_optional-IsSafe {ℓ} :
      {A : Type ℓ} (n : ℕ) (get : ReadStream → Outcome (A × ReadStream)) (old : Option A)
      → 1 ≤ n
      → IsSafe n get
      → IsSafe n (read_optional p get old)
  unfolding read_optional read_present
  read_optional-IsSafe n get old l h s k = elim (Bool-cases (can_read s)) [
    | inl e ↦ rw e (
        then-IsSafe n (read_bool p)
          (λ has s'. if has then map_value some (get s') else ok (old, s')) (read_bool-IsSafe n l)
          (present-IsSafe n get old h) s k)
    | inr e ↦ rw e (return-IsSafe n old s k)
  ]

  check-IsSafe :
      (n : ℕ) (t : Ty) (cs : List Constraint) (v : El t)
      → IsSafe n (λ s.
        if check_pp_constraints t cs v
        then ok (v, s)
        else throws (runtime_error "Constraint not satisfied"))
  check-IsSafe n t cs v s h = elim (Bool-cases (check_pp_constraints t cs v)) [
    | inl e ↦ rw e (return-IsSafe n v s h)
    | inr e ↦ rw e tt
  ]

  mutual
    unfolding read widest

    read_type-IsSafe : (t : Ty) (old : El t) (n : ℕ) → widest t ≤ n → IsSafe n (read p t old)
    read_type-IsSafe (scalar w) old n l = read_value-IsSafe n w l
    read_type-IsSafe character old n l = read_value-IsSafe n 1 l
    read_type-IsSafe boolean old n l = read_bool-IsSafe n l
    read_type-IsSafe empty old n l = return-IsSafe {0} n tt
    read_type-IsSafe c_string old n l = λ s h. tt
    read_type-IsSafe string old n l = read_string-IsSafe n old l
    read_type-IsSafe sp_string old n l =
        then-IsSafe n (read_value p 4)
          (λ size s. read_sized (read_value p 1) old size s >>= λ (value, s').
            map_value (λ last. value) (read_value p 1 s'))
          (read_value-IsSafe n 4 l)
          (λ size.
            then-IsSafe n (read_sized (read_value p 1) old size)
              (λ value s. map_value (λ last. value) (read_value p 1 s))
              (read_sized-IsSafe n (read_value p 1) old size (read_value-IsSafe n 1 (omega arith)))
              (λ value.
                map-IsSafe n (read_value p 1) (λ last. value)
                  (read_value-IsSafe n 1 (omega arith))))
    read_type-IsSafe (array k t) old n l =
        read_fixed-IsSafe n k (read p t (initial t)) (read_type-IsSafe t (initial t) n l) k _
    read_type-IsSafe (sp_array k t) old n l = λ s h. tt
    read_type-IsSafe (vector t) old n l = λ s h. tt
    read_type-IsSafe (sp_vector t) old n l =
        then-IsSafe n (read_value p 4) (read_sized (read p t (initial t)) old)
          (read_value-IsSafe n 4 (omega arith))
          (λ size.
            read_sized-IsSafe n (read p t (initial t)) old size
              (read_type-IsSafe t (initial t) n (omega arith)))
    read_type-IsSafe (optional t) old n l =
        read_optional-IsSafe n (read p t (initial t)) old (omega arith)
          (read_type-IsSafe t (initial t) n (omega arith))
    read_type-IsSafe (constrained t cs) old n l =
        then-IsSafe n (read p t old)
          (λ v s.
            if check_pp_constraints t cs v
            then ok (v, s)
            else throws (runtime_error "Constraint not satisfied"))
          (read_type-IsSafe t old n l) (check-IsSafe n t cs)
    read_type-IsSafe (object holder fs) old n l = read_fields-IsSafe holder fs old n l

    read_fields-IsSafe :
        (holder : String) (fs : Fields) (old : Els fs) (n : ℕ)
        → widest_field fs ≤ n
        → IsSafe n (read_object p holder fs old)
    read_fields-IsSafe holder no_fields old n l = return-IsSafe {0} n tt
    read_fields-IsSafe holder (field name t fs) (old, olds) n l =
        then-IsSafe n (λ s. rethrow_in_field read_site holder name (read p t old s))
          (λ v s. map_value (λ vs. (v, vs)) (read_object p holder fs olds s))
          (λ s h.
            rethrow-Keeps read_site holder name s _ (read_type-IsSafe t old n (omega arith) s h))
          (λ v.
            map-IsSafe n (read_object p holder fs olds) (λ vs. (v, vs))
              (read_fields-IsSafe holder fs olds n (omega arith)))

  -- On any bytes, in a buffer of a size below 2^64 that holds at least as many bytes as the widest
  -- scalar of the type, `read` ends and does not leave the buffer; if it returns it has moved
  -- forward within the same bytes.
  pub read-Keeps :
      (t : Ty) (old : El t) (s : ReadStream)
      → s.position ≤ length s.bytes
      → length s.bytes < size_mod
      → widest t ≤ length s.bytes
      → Keeps s (read p t old s)
  read-Keeps t old s within fits wide =
      read_type-IsSafe t old (length s.bytes) wide s
        (record { within = within; fits = fits; wide = omega arith })
