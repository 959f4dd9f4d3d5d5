-- ===== src/Plakpacs/Format/Writing.antt =====
-- plakpacs::serializer::write against the format.
use re_bacs_env.Prelude.{
  ℕ, ◌≡◌, refl, ap, none, some, List, [], ◌∷◌, ◌++◌, list_laws, String, Outcome, ok, ◌>>=◌,
}
use re_bacs_env.Plakpacs.Platform.{Platform}
use re_bacs_env.Plakpacs.Types.{
  Ty, Fields, El, Els, scalar, character, boolean, empty, c_string, string, sp_string, array,
  sp_array, vector, sp_vector, optional, constrained, object, no_fields, field,
}
use re_bacs_env.Plakpacs.Streams.{WriteStream, write_range, write_char, write_value, write_empty}
use re_bacs_env.Plakpacs.Serializer.{
  write, write_object, write_each, write_string, rethrow_in_field, write_site,
}
use re_bacs_env.Plakpacs.Format.{encode, encode_fields, flat_encode}

-- The stream with bytes added.
abbrev pub after : WriteStream → List ℕ → WriteStream
after ws bs = record { bytes = ws.bytes ++ bs }

after-append : (ws : WriteStream) (xs ys : List ℕ) → after (after ws xs) ys ≡ after ws (xs ++ ys)
after-append ws xs ys = simp list_laws

after-nil : (ws : WriteStream) → ws ≡ after ws []
after-nil ws = simp list_laws

-- Two appending steps, one behind the other.
write_then :
    (m : Outcome WriteStream) (f : WriteStream → Outcome WriteStream) (ws : WriteStream)
    (xs ys : List ℕ)
    → m ≡ ok (after ws xs)
    → ((u : WriteStream) → f u ≡ ok (after u ys))
    → (m >>= f) ≡ ok (after ws (xs ++ ys))
write_then m f ws xs ys e h = rw (e, h (after ws xs)) (ap ok (after-append ws xs ys))

write_each_lem {ℓ} :
    {A : Type ℓ} (f : A → WriteStream → Outcome WriteStream) (enc : A → List ℕ)
    → ((x : A) (ws : WriteStream) → f x ws ≡ ok (after ws (enc x)))
    → (xs : List A) (ws : WriteStream) → write_each f xs ws ≡ ok (after ws (flat_encode enc xs))
unfolding write_each
write_each_lem f enc h [] ws = ap ok (after-nil ws)
write_each_lem f enc h (x ∷ xs) ws =
    write_then (f x ws) (write_each f xs) ws (enc x) _ (h x ws) (write_each_lem f enc h xs)

write_string_lem : (v : List ℕ) (ws : WriteStream) → write_string v ws ≡ ok (after ws (v ++ 0 ∷ []))
unfolding write_string write_range write_char
write_string_lem v ws = ap ok (after-append ws v (0 ∷ []))

module _ (p : Platform) where
  write_value_lem :
      (w v : ℕ) (ws : WriteStream) → write_value p w v ws ≡ ok (after ws (p.bytes_of w v))
  unfolding write_value
  write_value_lem w v ws = refl

  mutual
    unfolding write encode write_char write_empty rethrow_in_field

    write_type :
        (t : Ty) (v : El t) (ws : WriteStream) → write p t v ws ≡ ok (after ws (encode p t v))
    write_type (scalar w) v ws = write_value_lem w v ws
    write_type character v ws = refl
    write_type boolean v ws = write_value_lem 1 _ ws
    write_type empty v ws = refl
    write_type c_string v ws = write_string_lem v ws
    write_type string v ws = write_string_lem v ws
    write_type sp_string v ws = write_then _ _ ws _ _ (write_value_lem 4 _ ws) (write_string_lem v)
    write_type (array n t) v ws = write_each_lem (write p t) (encode p t) (write_type t) v ws
    write_type (sp_array n t) v ws =
        write_then _ _ ws _ _ (write_value_lem 4 _ ws)
          (write_each_lem (write p t) (encode p t) (write_type t) v)
    write_type (vector t) v ws = write_each_lem (write p t) (encode p t) (write_type t) v ws
    write_type (sp_vector t) v ws =
        write_then _ _ ws _ _ (write_value_lem 4 _ ws)
          (write_each_lem (write p t) (encode p t) (write_type t) v)
    write_type (optional t) none ws = write_value_lem 1 0 ws
    write_type (optional t) (some v) ws =
        write_then _ _ ws _ _ (write_value_lem 1 1 ws) (write_type t v)
    write_type (constrained t cs) v ws = write_type t v ws
    write_type (object holder fs) v ws = write_fields holder fs v ws

    write_fields :
        (holder : String) (fs : Fields) (v : Els fs) (ws : WriteStream)
        → write_object p holder fs v ws ≡ ok (after ws (encode_fields p fs v))
    write_fields holder no_fields v ws = ap ok (after-nil ws)
    write_fields holder (field name t fs) (v, vs) ws =
        write_then _ _ ws (encode p t v) (encode_fields p fs vs)
          (ap (rethrow_in_field write_site holder name) (write_type t v ws))
          (write_fields holder fs vs)

  -- `write` never throws: on every type and value it leaves what the stream holds and adds the
  -- bytes of the format behind it.
  pub write-encode :
      (t : Ty) (v : El t) (ws : WriteStream)
      → write p t v ws ≡ ok (record { bytes = ws.bytes ++ encode p t v })
  write-encode t v ws = write_type t v ws
