-- ===== src/Plakpacs/Format/Losses.antt =====
-- What plakpacs writes and does not read back: variables in use, large containers, empty classes.
use re_bacs_env.Prelude.{
  ℕ, ◌^◌, ◌<◌, ◌≡◌, arith, false, none, some, List, [], ◌∷◌, ◌++◌, String, ok, length,
}
use re_bacs_env.Plakpacs.Platform.{Platform}
use re_bacs_env.Plakpacs.Types.{
  El, Ty, character, empty, sp_vector, optional, object, no_fields, field, initial,
}
use re_bacs_env.Plakpacs.Streams.{WriteStream, read_value}
use re_bacs_env.Plakpacs.Serializer.{
  write, read, read_sized, read_optional, read_present, rethrow_in_field,
}
use re_bacs_env.Plakpacs.Format.{encode, flat_encode, prefix, Fits}
use re_bacs_env.Plakpacs.Format.Writing.{write-encode}
use re_bacs_env.Plakpacs.Format.Reading.{
  between, Addressable, then-Takes, read_char-Takes, read_bool-Takes, read_sized-Takes,
  can_read-between,
}
use re_bacs_env.Plakpacs.Format.RoundTrip.{prefix-Takes, read_type}

module _ (p : Platform) where
  -- Reading into a variable in use: what was written from a size-prefixed container comes
  -- behind what the variable holds. The container fits its type and the buffer's size is below 2^64.
  pub read-append_old :
      (t : Ty) (old v : List (El t)) (front back : List ℕ)
      → Fits (sp_vector t) v
      → Addressable front (encode p (sp_vector t) v ++ back)
      → read p (sp_vector t) old (between front (encode p (sp_vector t) v ++ back))
        ≡ ok (old ++ v, between (front ++ encode p (sp_vector t) v) back)
  unfolding read encode
  read-append_old t old v front back h =
      then-Takes (read_value p 4) (read_sized (read p t (initial t)) old) (prefix p (length v))
        (flat_encode (encode p t) v) (length v) (old ++ v)
        (prefix-Takes p (length v) (omega (arith, h.0)))
        (read_sized-Takes (Fits t) (read p t (initial t)) (encode p t) (read_type p t) v old h.0
          h.1)
        front back

  -- An optional without a value, read into a variable that has one, leaves that value in place. The
  -- buffer's size is below 2^64.
  pub read-keep_old :
      (t : Ty) (old : El t) (front back : List ℕ)
      → Addressable front (encode p (optional t) none ++ back)
      → read p (optional t) (some old) (between front (encode p (optional t) none ++ back))
        ≡ ok (some old, between (front ++ encode p (optional t) none) back)
  unfolding read encode read_optional read_present
  read-keep_old t old front back h = rw (
    can_read-between front (p.bytes_of 1 0) back (omega (arith, p.length-bytes_of 1 0)) h,
    read_bool-Takes p false front back h,
  )

  -- An empty class is written as one byte and read as none: a character that follows it in an object is
  -- read from that byte. Fewer than 2^32 bytes stand behind.
  pub read-write_empty :
      (holder a b : String) (c : ℕ) (back : List ℕ)
      → c < 256
      → length back < 2 ^ 32
      → let t : Ty = object holder (field a empty (field b character no_fields)) in
        (ws : WriteStream) × (write p t (tt, (c, tt)) (record { bytes = [] }) ≡ ok ws)
        × (read p t (initial t) (record { bytes = ws.bytes ++ back; position = 0 })
            ≡ ok ((tt, (p.indeterminate, tt)), record { bytes = ws.bytes ++ back; position = 1 }))
  unfolding read encode rethrow_in_field between initial
  read-write_empty holder a b c back hc h = (
    record { bytes = p.indeterminate ∷ c ∷ [] },
    write-encode p (object holder (field a empty (field b character no_fields))) (tt, (c, tt))
        (record { bytes = [] }),
    rw (read_char-Takes p p.indeterminate p.indeterminate-lt [] (c ∷ back) (omega arith)),
  )
