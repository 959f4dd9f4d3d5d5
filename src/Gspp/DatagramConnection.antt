-- ===== src/Gspp/DatagramConnection.antt =====
-- gspp-net/gspp/datagram_connection.hpp and datagram_client.hpp: packets over a datagram socket.
pub mod Datagrams
pub mod Looping
pub mod Transfer
mod Runs
use re_bacs_env.Prelude.{
  ◌≡◌, zero, suc, diverges, ℕ, ◌%◌, ◌^◌, Bool, true, false, Option, none, some, List, [], ◌∷◌, ◌++◌,
  Exception, Outcome, ok, throws, ◌>>=◌, if◌then◌else◌, length, drop, replicate,
}
use re_bacs_env.Plakpacs.Platform.{Platform}
use re_bacs_env.Plakpacs.Streams.{WriteStream, write_value, write_range}
use re_bacs_env.Bacs.Asio.{ErrorCode, failed}
use re_bacs_env.Bacs.{SpTraits}

-- SharedStateBlock: the socket is the list of the datagrams given to `async_send_to`, and
-- `recv_buffer` has a fixed size.
pub record SharedStateBlock {ℓ} (Endpoint : Type ℓ) : Type ℓ where
  pub socket_open : Bool
  pub sent : List (Endpoint × List ℕ)
  pub recv_buffer : List ℕ

-- One completed receive: its error, and the endpoint and bytes that it put in the buffer.
pub record Received {ℓ} (Endpoint : Type ℓ) : Type ℓ where
  pub error : ErrorCode
  pub ep : Endpoint
  pub datagram : List ℕ

-- What SendAsync puts in a datagram: the size through the hook, and the bytes.
unfoldable pub packed : Platform → SpTraits → List ℕ → Outcome WriteStream
unfolding write_value write_range
packed p traits bytes = do
  ws ←
      write_value p traits.size_bytes (traits.on_out (length bytes % 256 ^ traits.size_bytes))
        (record { bytes = [] })
  write_range bytes ws

module _ {ℓ} {Endpoint : Type ℓ} where
  -- The constructor's state, with `recv_buffer.resize(RecvSize)`.
  unfoldable pub shared_state : ℕ → SharedStateBlock Endpoint
  shared_state recv_size = record {
    socket_open = true;
    sent = [];
    recv_buffer = replicate recv_size 0;
  }

  -- The destructor.
  unfoldable pub close : SharedStateBlock Endpoint → SharedStateBlock Endpoint
  close st = record st { socket_open = false }

  unfoldable pub send_async :
      Platform
      → SpTraits
      → Endpoint
      → List ℕ
      → SharedStateBlock Endpoint
      → Outcome (SharedStateBlock Endpoint)
  unfolding packed
  send_async p traits ep bytes st = do
    ws ← packed p traits bytes
    ok (record st { sent = st.sent ++ (ep, ws.bytes) ∷ [] })

  -- The bytes of a datagram go to the front of the buffer.
  unfoldable pub fill_buffer : List ℕ → SharedStateBlock Endpoint → SharedStateBlock Endpoint
  fill_buffer datagram st = record st {
    recv_buffer = datagram ++ drop (length datagram) st.recv_buffer;
  }

  module _ {κ} {S : Type κ} where
    -- A std::function that is called without a test: the empty one throws.
    unfoldable pub invoke :
        Exception
        → Option (S → Endpoint → List ℕ → ℕ → Outcome S)
        → S
        → Endpoint
        → List ℕ
        → ℕ
        → Outcome S
    invoke bad_function_call none st ep buffer count = throws bad_function_call
    invoke bad_function_call (some f) st ep buffer count = f st ep buffer count

    -- One completion, with the handler of the constructor.
    unfoldable pub on_receive :
        Exception
        → Option (S → Endpoint → List ℕ → ℕ → Outcome S)
        → Received Endpoint
        → S × SharedStateBlock Endpoint
        → Outcome (S × SharedStateBlock Endpoint)
    unfolding invoke fill_buffer failed
    on_receive bad_function_call on_handle r (app, st) =
        let st' = fill_buffer r.datagram st in
        if failed r.error
        then ok (app, st')
        else (invoke bad_function_call on_handle app r.ep st'.recv_buffer (length r.datagram)
            >>= λ app'. ok (app', st'))

    -- RecvLoopAsync, over the completions in their order: it goes on after errors too.
    unfoldable pub recv_loop :
        Exception
        → Option (S → Endpoint → List ℕ → ℕ → Outcome S)
        → List (Received Endpoint)
        → S × SharedStateBlock Endpoint
        → Outcome (S × SharedStateBlock Endpoint)
    recv_loop bad_function_call on_handle [] s = ok s
    recv_loop bad_function_call on_handle (r ∷ rs) s = do
      s' ← on_receive bad_function_call on_handle r s
      recv_loop bad_function_call on_handle rs s'

-- boost.asio's datagram socket as the receive loop uses it. `async_receive_from` gives what its
-- completion handler gets, and the world in which that runs. On a closed socket every receive fails
-- and reads nothing.
pub record DatagramSocket {ℓ} (Endpoint : Type ℓ) : Type (ℓ + 1) where
  pub World : Type ℓ
  pub async_receive_from : World → Received Endpoint × World
  pub close_socket : World → World
  pub IsClosed : World → Type 0
  pub close-IsClosed : (w : World) → IsClosed (close_socket w)
  pub receive-IsClosed :
      (w : World)
      → IsClosed w
      → (failed (async_receive_from w).0.error ≡ true)
        × ((async_receive_from w).0.datagram ≡ [])
        × IsClosed (async_receive_from w).1

module _ {ℓ κ} {Endpoint : Type ℓ} {S : Type κ} (socket : DatagramSocket Endpoint)
    (bad_function_call : Exception)
    (on_handle : Option (S → Endpoint → List ℕ → ℕ → Outcome S)) where
  open socket use {World, async_receive_from}

  -- RecvLoopAsync on the socket, on fuel: a unit for each receive. Nothing ends it.
  unfoldable pub recv_loop_async :
      ℕ → S × SharedStateBlock Endpoint → World → Outcome ((S × SharedStateBlock Endpoint) × World)
  unfolding on_receive
  recv_loop_async zero s w = diverges
  recv_loop_async (suc fuel) s w =
      let (r, w') = async_receive_from w in
      on_receive bad_function_call on_handle r s >>= λ s'. recv_loop_async fuel s' w'

  -- The constructor: its state, and the loop.
  unfoldable pub datagram_connection :
      ℕ → ℕ → S → World → Outcome ((S × SharedStateBlock Endpoint) × World)
  unfolding shared_state recv_loop_async
  datagram_connection recv_size fuel app w = recv_loop_async fuel (app, shared_state recv_size) w

-- `Send` of a serialized packet, of the connection.
unfoldable pub send_to {ℓ} :
    {Endpoint : Type ℓ}
    → Platform
    → SpTraits
    → Endpoint
    → List ℕ
    → SharedStateBlock Endpoint
    → Outcome (SharedStateBlock Endpoint)
unfolding send_async
send_to p traits ep bytes st = send_async p traits ep bytes st

-- datagram_client.hpp: the endpoint of one peer. The connection is shared with other clients, so its
-- state is an argument of `Send`.
pub record DatagramClient {ℓ} (Endpoint : Type ℓ) : Type ℓ where
  pub endpoint : Endpoint

-- `Send` of a serialized packet, of the client.
unfoldable pub send {ℓ} :
    {Endpoint : Type ℓ}
    → Platform
    → SpTraits
    → DatagramClient Endpoint
    → List ℕ
    → SharedStateBlock Endpoint
    → Outcome (SharedStateBlock Endpoint)
unfolding send_to
send p traits client bytes st = send_to p traits client.endpoint bytes st
