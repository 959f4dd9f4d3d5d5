-- ===== src/Bacs.antt =====
-- bacs/bacs/bacs.hpp: size-prefixed messages over a boost.asio stream socket, and accepting.
pub mod Asio
pub mod Framing
pub mod WideElements
pub mod Loops
pub mod Workers
mod Runs
use re_bacs_env.Prelude.{
  ℕ, zero, suc, ◌*◌, ◌%◌, ◌^◌, Bool, true, false, List, [], ◌∷◌, ◌++◌, Outcome, ok, throws, fault,
  diverges, ill_formed, ◌>>=◌, if◌then◌else◌, length, take, replicate,
}
use re_bacs_env.Plakpacs.Platform.{Platform}
use Asio.{ErrorCode, Socket, failed}

-- The template argument SPTraits: `size_bytes` is sizeof(size_type), `in` may throw.
pub record SpTraits : Type 0 where
  pub size_bytes : ℕ
  pub on_in : ℕ → Outcome ℕ
  pub on_out : ℕ → ℕ

-- sp_default: 32 bits, and both hooks leave the size alone.
unfoldable pub sp_default : SpTraits
sp_default = record { size_bytes = 4; on_in = λ size. ok size; on_out = λ size. size }

-- A container's memory, for elements of `width` bytes.
unfoldable pub memory : Platform → ℕ → List ℕ → List ℕ
memory p width [] = []
memory p width (x ∷ xs) = p.bytes_of width x ++ memory p width xs

-- shared_buffer of a size with its first bytes read: the rest was never written.
unfoldable pub shared_buffer : Platform → ℕ → List ℕ → List ℕ
shared_buffer p size bytes = take size (bytes ++ replicate size p.indeterminate)

module _ (p : Platform) (traits : SpTraits) (socket : Socket) where
  open socket use {World, async_write, async_read}

  -- The size in bytes, converted to size_type and passed through the hook.
  unfoldable pub header : ℕ → ℕ → List ℕ
  header width count =
      p.bytes_of traits.size_bytes (traits.on_out (count * width % 256 ^ traits.size_bytes))

  -- The body's buffer starts at `std::data` and has `std::size` bytes.
  unfoldable pub body : ℕ → List ℕ → List ℕ
  unfolding memory
  body width container = take (length container) (memory p width container)

  -- The second handler passes its arguments on; `handler` gets the error and the count of bytes.
  unfoldable pub async_write_sp {ℓ} :
      {A : Type ℓ} → ℕ → List ℕ → (ErrorCode → ℕ → World → A) → World → A
  unfolding failed
  async_write_sp width container handler w =
      let ((ec, sent), w') = async_write (header width (length container)) w in
      if failed ec
      then handler ec sent w'
      else let ((ec', sent'), w'') = async_write (body width container) w' in handler ec' sent' w''

  -- Behind the size: the `try` block and its handler.
  unfoldable pub read_body {ℓ} :
      {A : Type ℓ}
      → ErrorCode
      → ℕ
      → Outcome ℕ
      → (ErrorCode → ℕ → List ℕ → World → A)
      → World
      → Outcome A
  unfolding shared_buffer
  read_body ec count (ok size) handler w =
      let ((ec', bytes), w') = async_read size w in
      ok (handler ec' (length bytes) (shared_buffer p size bytes) w')
  read_body ec count (throws e) handler w = ok (handler ec count [] w)
  read_body ec count fault handler w = fault
  read_body ec count diverges handler w = diverges
  read_body ec count ill_formed handler w = ill_formed

  unfoldable pub async_read_sp {ℓ} :
      {A : Type ℓ} → (ErrorCode → ℕ → List ℕ → World → A) → World → Outcome A
  unfolding read_body failed
  async_read_sp handler w =
      let ((ec, bytes), w') = async_read traits.size_bytes w in
      if failed ec
      then ok (handler ec (length bytes) [] w')
      else read_body ec (length bytes) (traits.on_in (p.value_of bytes)) handler w'

  -- One round's end: the handler's answer decides whether the loop goes on.
  unfoldable pub go_on {ℓ} :
      {S : Type ℓ}
      → Outcome ((S × Bool) × World)
      → (S → World → Outcome (S × World))
      → Outcome (S × World)
  go_on r again = r >>= λ ((st, more), w). if more then again st w else ok (st, w)

  -- `handler` has a state `S` and answers whether to read on. Fuel counts the messages.
  unfoldable pub async_read_sp_loop {ℓ} :
      {S : Type ℓ} → ℕ → (S → ErrorCode → ℕ → List ℕ → S × Bool) → S → World → Outcome (S × World)
  unfolding async_read_sp go_on
  async_read_sp_loop zero handler st w = diverges
  async_read_sp_loop (suc fuel) handler st w =
      go_on (async_read_sp (λ ec count buffer w'. (handler st ec count buffer, w')) w)
        (async_read_sp_loop fuel handler)

-- The accept handlers in the order in which the operating system completes them: `handler` runs at
-- each, and the first failed one ends the loop. Returned are the state and whether it still accepts.
unfoldable pub async_accept_loop {ℓ} :
    {S : Type ℓ} → (S → ErrorCode → S) → S → List ErrorCode → S × Bool
unfolding failed
async_accept_loop handler st [] = (st, true)
async_accept_loop handler st (ec ∷ completions) =
    let rest = async_accept_loop handler (handler st ec) completions in
    if failed ec then (handler st ec, false) else rest
