-- ===== src/Plakpacs/Streams/Bounds.antt =====
-- plakpacs::read_stream at the end of its buffer.
use re_bacs_env.Prelude.{
  ℕ, ◌+◌, ◌^◌, ◌≤◌, ◌<◌, ◌≡◌, ◌⊎◌, arith, List, Outcome, ok, throws, fault, runtime_error, length,
  take, drop, leb,
}
use re_bacs_env.Plakpacs.Streams.{ReadStream, size_mod, can_read_num, fetch, read_bytes}

-- A stream that a run can meet: its position within the buffer, and the buffer of a size below
-- 2^64 and of `n` bytes at least.
pub record IsOpen (n : ℕ) (s : ReadStream) : Type 0 where
  pub within : s.position ≤ length s.bytes
  pub fits : length s.bytes < size_mod
  pub wide : n ≤ length s.bytes

-- What a read of `num` bytes is to do: take them if they are there, and otherwise throw.
abbrev pub Exact : ℕ → ReadStream → Outcome (List ℕ × ReadStream) → Type 0
Exact num s r =
    ((s.position + num ≤ length s.bytes)
      × (r ≡ ok (take num (drop s.position s.bytes), record s { position = s.position + num })))
    ⊎ ((length s.bytes < s.position + num)
        × (r
            ≡ throws (
                runtime_error
                  "plakpacs::read_stream.read<T>() => Can't read past the end of the stream")))

-- The test in front of a read is exact as long as the whole buffer has `num` bytes.
can_read_num-leb :
    (num : ℕ) (s : ReadStream)
    → IsOpen num s
    → can_read_num s num ≡ leb (s.position + num) (length s.bytes)
unfolding can_read_num
can_read_num-leb num s h = ground arith

-- In a buffer of `num` bytes or more and of fewer than 2^64, a read of `num` bytes takes the next ones if they are there
-- and throws if they are not.
pub read_bytes-Exact : (num : ℕ) (s : ReadStream) → IsOpen num s → Exact num s (read_bytes num s)
unfolding read_bytes fetch
read_bytes-Exact num s h = rw (can_read_num-leb num s h) (ground arith)

-- In a buffer shorter than `num` bytes, with `num` below 2^63, the test passes, and the read goes past
-- the buffer.
pub read_bytes-fault :
    (num : ℕ) (s : ReadStream)
    → IsOpen 0 s
    → length s.bytes < num
    → num < 2 ^ 63
    → read_bytes num s ≡ fault
unfolding read_bytes fetch can_read_num
read_bytes-fault num s h short small = ground arith
