-- ===== src/Bacs/Asio.antt =====
-- boost.asio as bacs.hpp uses it: error codes, and a stream socket's composed operations.
pub mod Buffers
use re_bacs_env.Prelude.{ℕ, ◌≤◌, ◌≡◌, Bool, true, false, List, ◌++◌, length}

-- boost::system::error_code: no failure, or the number of one.
pub data ErrorCode : Type 0 where
  success : ErrorCode
  failure : ℕ → ErrorCode

unfoldable pub failed : ErrorCode → Bool
failed success = false
failed (failure n) = true

-- A socket and all around it are a `World`. `async_write` and `async_read` return what their
-- completion handlers get, and the world in which these run. `written` is the stream of bytes sent
-- so far and `incoming` the stream of those that the peer's side still holds for a read. A
-- write without failure has sent all its bytes, and a read without failure has filled its buffer.
pub record Socket : Type 1 where
  pub World : Type 0
  pub async_write : List ℕ → World → (ErrorCode × ℕ) × World
  pub async_read : ℕ → World → (ErrorCode × List ℕ) × World
  pub written : World → List ℕ
  pub incoming : World → List ℕ
  pub write_all :
      (bytes : List ℕ) (w : World)
      → (async_write bytes w).0.0 ≡ success
      → written (async_write bytes w).1 ≡ written w ++ bytes
  pub read_all :
      (n : ℕ) (w : World)
      → (async_read n w).0.0 ≡ success
      → (length (async_read n w).0.1 ≡ n)
        × (incoming w ≡ (async_read n w).0.1 ++ incoming (async_read n w).1)
  pub read_ready : (n : ℕ) (w : World) → n ≤ length (incoming w) → (async_read n w).0.0 ≡ success

-- A socket on which no write fails.
abbrev pub Reliable : Socket → Type 0
Reliable socket = (bytes : List ℕ) (w : socket.World) → (socket.async_write bytes w).0.0 ≡ success
