-- ===== src/Plakpacs/Runs.antt =====
-- The serializer on concrete values, and its theorems at concrete inputs.
use re_bacs_env.Prelude.{
  ℕ, ◌≡◌, refl, arith, none, some, List, [], ◌∷◌, ◌++◌, Exception, ok, throws, fault, runtime_error,
  length, replicate,
}
use re_bacs_env.Plakpacs.Platform.LittleEndian.{little_endian}
use re_bacs_env.Plakpacs.Types.{
  Ty, Fields, El, scalar, character, empty, string, sp_vector, optional, constrained, object,
  no_fields, field, initial, check_pp_constraints, max_container_size,
}
use re_bacs_env.Plakpacs.Streams.{
  WriteStream, ReadStream, read_bytes, read_value, read_bool, can_read, write_value,
}
use re_bacs_env.Plakpacs.Streams.Bounds.{Exact, read_bytes-Exact}
use re_bacs_env.Plakpacs.Serializer.{
  write, read, rethrow_in_field, write_each, write_string, read_sized, read_string, read_optional,
}
use re_bacs_env.Plakpacs.Serializer.Safety.{widest, read-Keeps}
use re_bacs_env.Plakpacs.Serializer.Safety.Keeping.{Keeps}
use re_bacs_env.Plakpacs.Serializer.Validity.{IsValid, read-IsValid}
use re_bacs_env.Plakpacs.Serializer.Errors.{Blames, read-Blames}
use re_bacs_env.Plakpacs.Format.{encode, Fits}
use re_bacs_env.Plakpacs.Format.Writing.{write-encode}
use re_bacs_env.Plakpacs.Format.RoundTrip.{read-write}
use re_bacs_env.Plakpacs.Format.Reading.{between}
use re_bacs_env.Plakpacs.Format.Losses.{read-keep_old, read-write_empty}

-- struct Player { uint32_t id; sp_vector<std::string> tags; std::optional<char> mark; };
abbrev player_fields : Fields
player_fields = field "id" (scalar 4) (
    field "tags" (constrained (sp_vector string) (max_container_size 2 ∷ []))
      (field "mark" (optional character) no_fields))

abbrev player : Ty
player = object "Player" player_fields

abbrev alice : El player
alice = (0x1234, (((104 ∷ 105 ∷ []) ∷ []), (some 33, tt)))

abbrev alice_bytes : List ℕ
alice_bytes = 0x34 ∷ 0x12 ∷ 0 ∷ 0 ∷ 1 ∷ 0 ∷ 0 ∷ 0 ∷ 104 ∷ 105 ∷ 0 ∷ 1 ∷ 33 ∷ []

write-alice :
    write little_endian player alice (record { bytes = [] }) ≡ ok (record { bytes = alice_bytes })
unfolding write little_endian rethrow_in_field write_value write_each write_string
write-alice = refl

read-alice :
    read little_endian player (initial player) (record { bytes = alice_bytes; position = 0 })
    ≡ ok (alice, record { bytes = alice_bytes; position = 13 })
unfolding read little_endian initial rethrow_in_field read_value read_sized read_string
    check_pp_constraints read_optional can_read read_bool
read-alice = refl

alice-Fits : Fits player alice
unfolding check_pp_constraints
alice-Fits = (
  omega arith,
  (
    ((omega arith, (((omega arith, λ e. cc), ((omega arith, λ e. cc), tt)), tt)), refl),
    (omega arith, tt),
  ),
)

write-encode_example :
    write little_endian player alice (record { bytes = 9 ∷ [] })
    ≡ ok (record { bytes = 9 ∷ encode little_endian player alice })
write-encode_example = write-encode little_endian player alice (record { bytes = 9 ∷ [] })

read-write_example :
    (ws : WriteStream) × (write little_endian player alice (record { bytes = 9 ∷ [] }) ≡ ok ws)
    × (read little_endian player
          (initial player)
          (record { bytes = ws.bytes ++ 7 ∷ 7 ∷ []; position = 1 })
        ≡ ok (alice, record { bytes = ws.bytes ++ 7 ∷ 7 ∷ []; position = length ws.bytes }))
unfolding encode little_endian
read-write_example =
    read-write little_endian player alice (9 ∷ []) (7 ∷ 7 ∷ []) alice-Fits (omega arith)

abbrev garbage : ReadStream
garbage = record { bytes = 2 ∷ 0 ∷ 0 ∷ 0 ∷ 255 ∷ []; position = 0 }

read-Keeps_example : Keeps garbage (read little_endian (sp_vector (scalar 4)) [] garbage)
unfolding widest
read-Keeps_example =
    read-Keeps little_endian (sp_vector (scalar 4)) [] garbage (omega arith) (omega arith)
      (omega arith)

read-IsValid_example : IsValid player alice
read-IsValid_example =
    read-IsValid little_endian player (record { bytes = alice_bytes; position = 0 })
      (record { bytes = alice_bytes; position = 13 }) alice read-alice

abbrev cut_short : ReadStream
cut_short = record { bytes = 1 ∷ 0 ∷ 0 ∷ 0 ∷ []; position = 0 }

abbrev cut_short_error : Exception
cut_short_error =
    runtime_error
      "plakpacs::serializer.read_object: field 'Player.tags' caught exception - plakpacs::read_stream.read<T>() => Can't read past the end of the stream"

read-cut_short : read little_endian player (initial player) cut_short ≡ throws cut_short_error
unfolding read little_endian initial rethrow_in_field read_value
read-cut_short = refl

read-Blames_example : Blames "Player" player_fields cut_short_error
read-Blames_example =
    read-Blames little_endian "Player" player_fields (initial player) cut_short cut_short_error
      read-cut_short

read_bytes-Exact_example : Exact 2 garbage (read_bytes 2 garbage)
read_bytes-Exact_example =
    read_bytes-Exact 2 garbage
      (record { within = omega arith; fits = omega arith; wide = omega arith })

-- An optional out of an empty buffer.
read_optional_empty :
    read little_endian (optional character) none (record { bytes = []; position = 0 }) ≡ fault
unfolding read read_optional can_read read_bool
read_optional_empty = refl

read-keep_old_example :
    read little_endian
      (optional character)
      (some 5)
      (between [] (encode little_endian (optional character) none ++ []))
    ≡ ok (some 5, between ([] ++ encode little_endian (optional character) none) [])
unfolding encode little_endian
read-keep_old_example = read-keep_old little_endian character 5 [] [] (omega arith)

-- One element more than the limit.
many : List ℕ
many = replicate 65537 7

abbrev tagged : Ty
tagged = object "Tagged" (field "tag" empty (field "c" character no_fields))

read-write_empty_example :
    (ws : WriteStream) × (write little_endian tagged (tt, (65, tt)) (record { bytes = [] }) ≡ ok ws)
    × (read little_endian tagged (initial tagged) (record { bytes = ws.bytes ++ []; position = 0 })
        ≡ ok (
          (tt, (little_endian.indeterminate, tt)),
          record { bytes = ws.bytes ++ []; position = 1 },
        ))
read-write_empty_example =
    read-write_empty little_endian "Tagged" "tag" "c" 65 [] (omega arith) (omega arith)
