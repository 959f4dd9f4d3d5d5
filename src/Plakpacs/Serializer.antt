-- ===== src/Plakpacs/Serializer.antt =====
-- plakpacs::serializer and the specializations of binary_walker, by recursion on the type.
pub mod Safety
pub mod Validity
pub mod Errors
use re_bacs_env.Prelude.{
  ℕ, zero, suc, ◌+◌, ◌%◌, ◌^◌, Bool, true, false, Option, none, some, List, [], ◌∷◌, ◌++◌, String,
  Outcome, ok, throws, fault, diverges, ill_formed, runtime_error, unknown, ◌>>=◌, concat,
  if◌then◌else◌, ltb, ◌==◌, length,
}
use re_bacs_env.Plakpacs.Platform.{Platform}
use re_bacs_env.Plakpacs.Types
use re_bacs_env.Plakpacs.Types.{
  Ty, Fields, El, Els, scalar, character, boolean, empty, c_string, string, sp_string, array,
  sp_array, vector, sp_vector, optional, constrained, object, no_fields, field, initial,
  check_pp_constraints,
}
use re_bacs_env.Plakpacs.Streams.{
  WriteStream, ReadStream, write_range, write_char, write_value, write_empty, read_value, read_bool,
  can_read,
}
use re_bacs_env.Plakpacs.Appenders.{append, FixedAppender, append_fixed}

-- The handlers around one field in `write_object` and `read_object`; `site` names the function.
unfoldable pub rethrow_in_field {ℓ} :
    {A : Type ℓ} → String → String → String → Outcome A → Outcome A
rethrow_in_field site holder name (ok a) = ok a
rethrow_in_field site holder name (throws (runtime_error what)) = throws (
    runtime_error
      (concat (site ∷ ": field '" ∷ holder ∷ "." ∷ name ∷ "' caught exception - " ∷ what ∷ [])))
rethrow_in_field site holder name (throws unknown) = throws (
    runtime_error
      (concat (site ∷ ": field '" ∷ holder ∷ "." ∷ name ∷ "' caught unknown exception" ∷ [])))
rethrow_in_field site holder name fault = fault
rethrow_in_field site holder name diverges = diverges
rethrow_in_field site holder name ill_formed = ill_formed

abbrev pub write_site : String
write_site = "plakpacs::serializer.write_object"

abbrev pub read_site : String
read_site = "plakpacs::serializer.read_object"

-- `for (auto& value : container) serializer::write(stream, value);`
unfoldable pub write_each {ℓ} :
    {A : Type ℓ}
    → (A → WriteStream → Outcome WriteStream)
    → List A
    → WriteStream
    → Outcome WriteStream
write_each write [] ws = ok ws
write_each write (x ∷ xs) ws = do ws' ← write x ws; write_each write xs ws'

-- The loop of `read` for a container of fixed size, `n` rounds from the end.
unfoldable pub read_fixed {ℓ} :
    {A : Type ℓ}
    → ℕ
    → ℕ
    → (ReadStream → Outcome (A × ReadStream))
    → FixedAppender A
    → ReadStream
    → Outcome (List A × ReadStream)
unfolding append_fixed
read_fixed size zero read a s = ok (a.container, s)
read_fixed size (suc n) read a s = do
  (value, s') ← read s
  a' ← append_fixed size a value
  read_fixed size n read a' s'

-- The loop of `read` for a size-prefixed container.
unfoldable pub read_each {ℓ} :
    {A : Type ℓ}
    → ℕ
    → (ReadStream → Outcome (A × ReadStream))
    → List A
    → ReadStream
    → Outcome (List A × ReadStream)
unfolding append
read_each zero read container s = ok (container, s)
read_each (suc n) read container s = do
  (value, s') ← read s
  read_each n read (append container value) s'

-- The size prefix's check and the loop under it.
unfoldable pub read_sized {ℓ} :
    {A : Type ℓ}
    → (ReadStream → Outcome (A × ReadStream))
    → List A
    → ℕ
    → ReadStream
    → Outcome (List A × ReadStream)
unfolding read_each
read_sized read container size s =
    if ltb 65536 size
    then throws (
        runtime_error
          "plakpacs::binary_walker<Stream, sp_container<T>>.read() => Invalid container size...")
    else read_each size read container s

-- The value that a read returns, passed on through `f`.
abbrev pub map_value {ℓ κ} :
    {A : Type ℓ} {B : Type κ} → (A → B) → Outcome (A × ReadStream) → Outcome (B × ReadStream)
map_value f r = r >>= λ (value, s). ok (f value, s)

-- binary_walker<Stream, std::string>::write: the characters and a NUL.
unfoldable pub write_string : List ℕ → WriteStream → Outcome WriteStream
unfolding write_range write_char
write_string value ws = do ws' ← write_range value ws; write_char 0 ws'

-- binary_walker<Stream, const char*>: written as the std::string of its characters, and never read.
abbrev pub write_c_string : List ℕ → WriteStream → Outcome WriteStream
write_c_string value ws = write_string value ws

abbrev pub read_c_string {ℓ} : {A : Type ℓ} → Outcome A
read_c_string = throws (
    runtime_error
      "Can't read C-style strings in plakpacs: please switch to the appropriate C++ counterpart")

module _ (p : Platform) where
  -- `while (auto c = stream.template read<char>()) value += c;` on fuel.
  unfoldable pub read_chars : ℕ → List ℕ → ReadStream → Outcome (List ℕ × ReadStream)
  unfolding read_value
  read_chars zero value s = diverges
  read_chars (suc fuel) value s = do
    (c, s') ← read_value p 1 s
    let rest = read_chars fuel (value ++ c ∷ []) s'
    if c == 0 then ok (value, s') else rest

  -- Each round takes a byte, or throws.
  unfoldable pub read_string : List ℕ → ReadStream → Outcome (List ℕ × ReadStream)
  unfolding read_chars
  read_string value s = read_chars (suc (length s.bytes)) value s

  -- The part of the optional's `read` behind the test `can_read`: with no value in the stream the
  -- old value stays.
  unfoldable pub read_present {ℓ} :
      {A : Type ℓ}
      → (ReadStream → Outcome (A × ReadStream))
      → Option A
      → ReadStream
      → Outcome (Option A × ReadStream)
  read_present read old s = do
    (has, s') ← read_bool p s
    if has then map_value some (read s') else ok (old, s')

  -- binary_walker<Stream, std::optional<T>>::read.
  unfoldable pub read_optional {ℓ} :
      {A : Type ℓ}
      → (ReadStream → Outcome (A × ReadStream))
      → Option A
      → ReadStream
      → Outcome (Option A × ReadStream)
  unfolding read_present
  read_optional read old s = if can_read s then read_present read old s else ok (old, s)

  unfoldable mutual
    pub write : (t : Ty) → El t → WriteStream → Outcome WriteStream
    write (scalar w) v ws = write_value p w v ws
    write character v ws = write_char v ws
    write boolean v ws = write_value p 1 (if v then 1 else 0) ws
    write empty v ws = write_empty p ws
    write c_string v ws = write_c_string v ws
    write string v ws = write_string v ws
    write sp_string v ws = do ws' ← write_value p 4 (length v % 2 ^ 32) ws; write_string v ws'
    write (array n t) v ws = write_each (write t) v ws
    write (vector t) v ws = write_each (write t) v ws
    write (sp_array n t) v ws = do ws' ← write_value p 4 (n % 2 ^ 32) ws; write_each (write t) v ws'
    write (sp_vector t) v ws = do
      ws' ← write_value p 4 (length v % 2 ^ 32) ws
      write_each (write t) v ws'
    write (optional t) none ws = write_value p 1 0 ws
    write (optional t) (some v) ws = do ws' ← write_value p 1 1 ws; write t v ws'
    write (constrained t cs) v ws = write t v ws
    write (object holder fs) v ws = write_object holder fs v ws

    pub write_object : String → (fs : Fields) → Els fs → WriteStream → Outcome WriteStream
    write_object holder no_fields v ws = ok ws
    write_object holder (field name t fs) (v, vs) ws = do
      ws' ← rethrow_in_field write_site holder name (write t v ws)
      write_object holder fs vs ws'

  unfoldable mutual
    -- `read(stream, value)`: the second argument is what `value` holds before.
    pub read : (t : Ty) → El t → ReadStream → Outcome (El t × ReadStream)
    read (scalar w) old s = read_value p w s
    read character old s = read_value p 1 s
    read boolean old s = read_bool p s
    read empty old s = ok (tt, s)
    read c_string old s = read_c_string
    read string old s = read_string old s
    read sp_string old s = do
      (size, s') ← read_value p 4 s
      (value, s'') ← read_sized (read_value p 1) old size s'
      map_value (λ last. value) (read_value p 1 s'')
    read (array n t) old s =
        read_fixed n n (read t (initial t)) (record { container = old; index = 0 }) s
    read (sp_array n t) old s = ill_formed
    read (vector t) old s = ill_formed
    read (sp_vector t) old s = do
      (size, s') ← read_value p 4 s
      read_sized (read t (initial t)) old size s'
    read (optional t) old s = read_optional (read t (initial t)) old s
    read (constrained t cs) old s = do
      (value, s') ← read t old s
      if check_pp_constraints t cs value
          then ok (value, s')
          else throws (runtime_error "Constraint not satisfied")
    read (object holder fs) old s = read_object holder fs old s

    pub read_object : String → (fs : Fields) → Els fs → ReadStream → Outcome (Els fs × ReadStream)
    read_object holder no_fields old s = ok (tt, s)
    read_object holder (field name t fs) (old, olds) s = do
      (value, s') ← rethrow_in_field read_site holder name (read t old s)
      (values, s'') ← read_object holder fs olds s'
      ok ((value, values), s'')
