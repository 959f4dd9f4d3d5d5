-- ===== src/Plakpacs/Streams.antt =====
-- plakpacs::write_stream and plakpacs::read_stream. A byte is a number below 256, and `size_t` has
-- 64 bits.
pub mod Bounds
use re_bacs_env.Prelude.{
  ℕ, ◌+◌, ◌-◌, ◌%◌, ◌^◌, Bool, true, false, List, [], ◌∷◌, ◌++◌, Outcome, ok, throws, fault,
  runtime_error, ◌>>=◌, if◌then◌else◌, leb, length, take, drop,
}
use re_bacs_env.Plakpacs.Platform.{Platform}

pub record WriteStream : Type 0 where
  pub bytes : List ℕ

-- The two-iterator `write`: bytes go to the end.
unfoldable pub write_range : List ℕ → WriteStream → Outcome WriteStream
write_range bs ws = ok (record { bytes = ws.bytes ++ bs })

-- The overloads for `char` and `unsigned char`.
unfoldable pub write_char : ℕ → WriteStream → Outcome WriteStream
write_char c ws = ok (record { bytes = ws.bytes ++ c ∷ [] })

pub record ReadStream : Type 0 where
  pub bytes : List ℕ
  pub position : ℕ

abbrev pub size_mod : ℕ
size_mod = 2 ^ 64

-- `_bytes.size() - num` wraps where `num` is larger.
unfoldable pub can_read_num : ReadStream → ℕ → Bool
can_read_num s num = leb s.position ((length s.bytes + size_mod - num) % size_mod)

unfoldable pub can_read : ReadStream → Bool
unfolding can_read_num
can_read s = can_read_num s 1

-- The copy out of `_bytes.data() + _position`; outside the buffer it is undefined behaviour.
unfoldable pub fetch : ℕ → ReadStream → Outcome (List ℕ × ReadStream)
fetch num s =
    if leb (s.position + num) (length s.bytes)
    then ok (take num (drop s.position s.bytes), record s { position = s.position + num })
    else fault

-- `read(T&)` for a type of `num` bytes: the object representation that it finds.
unfoldable pub read_bytes : ℕ → ReadStream → Outcome (List ℕ × ReadStream)
unfolding can_read_num fetch
read_bytes num s =
    if can_read_num s num
    then fetch num s
    else throws
        (runtime_error "plakpacs::read_stream.read<T>() => Can't read past the end of the stream")

module _ (p : Platform) where
  -- The generic `write(const T&)` at a type of `w` bytes, the value as the number of its bits.
  unfoldable pub write_value : ℕ → ℕ → WriteStream → Outcome WriteStream
  unfolding write_range
  write_value w v ws = write_range (p.bytes_of w v) ws

  -- The same at an empty class, which has size 1: its assignment stores nothing.
  unfoldable pub write_empty : WriteStream → Outcome WriteStream
  unfolding write_range
  write_empty ws = write_range (p.indeterminate ∷ []) ws

  unfoldable pub read_value : ℕ → ReadStream → Outcome (ℕ × ReadStream)
  unfolding read_bytes
  read_value w s = do (bs, s') ← read_bytes w s; ok (p.value_of bs, s')

  unfoldable pub read_bool : ReadStream → Outcome (Bool × ReadStream)
  unfolding read_value
  read_bool s = do (b, s') ← read_value 1 s; ok (p.bool_of b, s')
