-- ===== src/Gspp/StreamClient/Hooks.antt =====
-- StreamClient's receive loop with a hook SPTraits::in that throws, as one that limits the size.
use re_bacs_env.Prelude.{ℕ, suc, ◌≡◌, refl, subst, true, List, [], ◌++◌, Exception, throws, length}
use re_bacs_env.Plakpacs.Platform.{Platform}
use re_bacs_env.Bacs.Asio.{Socket, success, failed}
use re_bacs_env.Bacs.{SpTraits, async_read_sp, read_body, async_read_sp_loop, go_on}
use re_bacs_env.Bacs.Framing.{read_next}
use re_bacs_env.Gspp.StreamClient.{Callbacks, call_handle, on_received, start_receive_loop}

-- A message whose size the hook refuses with an exception is not refused by the loop: `on_handle` gets an
-- empty message and no error, `on_death` is not called, and if the answer is to read on, the next
-- size is read from the refused message's bytes.
pub start_receive_loop-in_throws {ℓ} :
    {S : Type ℓ} (p : Platform) (traits : SpTraits) (socket : Socket) (cb : Callbacks S) (fuel : ℕ)
    (st : S) (w : socket.World) (size rest : List ℕ) (e : Exception)
    → length size ≡ traits.size_bytes
    → socket.incoming w ≡ size ++ rest
    → traits.on_in (p.value_of size) ≡ throws e
    → (call_handle cb.on_handle st []).1 ≡ true
    → (w' : socket.World) × (start_receive_loop p traits socket (suc fuel) cb st w
        ≡ start_receive_loop p traits socket fuel cb (call_handle cb.on_handle st []).0 w')
      × (socket.incoming w' ≡ rest)
unfolding start_receive_loop async_read_sp_loop async_read_sp read_body go_on on_received failed
start_receive_loop-in_throws p traits socket cb fuel st w size rest e long comes refused more =
    let (w', read, left) =
      subst
        (λ (n : ℕ).
          (w₁ : socket.World) × (socket.async_read n w ≡ ((success, size), w₁))
          × (socket.incoming w₁ ≡ rest))
        long (read_next p traits socket size rest w comes) in
    (w', rw (read, refused, more) refl, left)
