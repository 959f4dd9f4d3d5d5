-- ===== src/Bacs/Asio/Buffers.antt =====
-- A socket between two byte lists, on which the tests run: writes are never refused, and a read for
-- which not enough bytes are left takes them and fails.
use re_bacs_env.Prelude.{
  ℕ, ◌≤◌, ◌≡◌, inl, inr, Bool-cases, leb, leb→le, le→leb, if◌then◌else◌, refl, sym, List, [], ◌++◌,
  length, length-take_of_le, take, drop, take-append-drop,
}
use re_bacs_env.Bacs.Asio.{Reliable, ErrorCode, Socket, success, failure}

pub record Buffers : Type 0 where
  pub sent : List ℕ
  pub to_read : List ℕ

unfoldable pub write_buffer : List ℕ → Buffers → (ErrorCode × ℕ) × Buffers
write_buffer bytes w = ((success, length bytes), record w { sent = w.sent ++ bytes })

unfoldable pub read_buffer : ℕ → Buffers → (ErrorCode × List ℕ) × Buffers
read_buffer n w =
    if leb n (length w.to_read)
    then ((success, take n w.to_read), record w { to_read = drop n w.to_read })
    else ((failure 2, w.to_read), record w { to_read = [] })

pub write_all :
    (bytes : List ℕ) (w : Buffers)
    → (write_buffer bytes w).0.0 ≡ success
    → (write_buffer bytes w).1.sent ≡ w.sent ++ bytes
unfolding write_buffer
write_all bytes w h = refl

pub read_all :
    (n : ℕ) (w : Buffers)
    → (read_buffer n w).0.0 ≡ success
    → (length (read_buffer n w).0.1 ≡ n)
      × (w.to_read ≡ (read_buffer n w).0.1 ++ (read_buffer n w).1.to_read)
unfolding read_buffer
read_all n w h = elim (Bool-cases (leb n (length w.to_read))) [
  | inl e ↦ rw e (
    length-take_of_le n w.to_read (leb→le n (length w.to_read) e),
    sym (take-append-drop n w.to_read),
  )
  | inr e ↦ cc (rw e at h)
]

pub read_ready : (n : ℕ) (w : Buffers) → n ≤ length w.to_read → (read_buffer n w).0.0 ≡ success
unfolding read_buffer
read_ready n w h = rw (le→leb n (length w.to_read) h)

abbrev pub buffers : Socket
buffers = record {
  World = Buffers;
  async_write = write_buffer;
  async_read = read_buffer;
  written = λ w. w.sent;
  incoming = λ w. w.to_read;
  write_all = write_all;
  read_all = read_all;
  read_ready = read_ready;
}

pub buffers-Reliable : Reliable buffers
unfolding write_buffer
buffers-Reliable bytes w = refl
