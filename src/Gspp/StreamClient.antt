-- ===== src/Gspp/StreamClient.antt =====
-- gspp-net/gspp/stream_client.hpp: a socket with a queue of messages to write and a receive loop.
pub mod Writing
pub mod Receiving
pub mod Sessions
pub mod Hooks
pub mod Transfer
mod Runs
use re_bacs_env.Prelude.{
  ◌>>=◌, ℕ, zero, suc, ◌-◌, Bool, true, false, Option, none, some, List, [], ◌∷◌, ◌++◌, Outcome, ok,
  fault, if◌then◌else◌, length, ◌==◌,
}
use re_bacs_env.Plakpacs.Platform.{Platform}
use re_bacs_env.Bacs.Asio.{ErrorCode, Socket, failed}
use re_bacs_env.Bacs.{SpTraits, async_read_sp_loop, async_write_sp}

-- The writing half of SharedStateBlock. Each call of `WriteAsync` adds its message to `submitted`,
-- with whether the socket was open then; `pending` counts the writes whose handler has not run.
pub record SharedStateBlock : Type 0 where
  pub socket_open : Bool
  pub write_queue : List (List ℕ)
  pub shutdown : Bool
  pub submitted : List (List ℕ × Bool)
  pub pending : ℕ

abbrev pub initial : SharedStateBlock
initial = record {
  socket_open = true;
  write_queue = [];
  shutdown = false;
  submitted = [];
  pending = 0;
}

-- The start of an asynchronous write; its completion handler is `on_written`.
unfoldable pub write_async : List ℕ → SharedStateBlock → SharedStateBlock
write_async bytes st = record st {
  submitted = st.submitted ++ (bytes, st.socket_open) ∷ [];
  pending = suc st.pending;
}

-- `WriteAsync(write_queue.front())`, unless the queue is empty.
unfoldable pub write_front : List (List ℕ) → SharedStateBlock → SharedStateBlock
unfolding write_async
write_front [] st = st
write_front (front ∷ rest) st = write_async front st

-- `bytes` is the serialized packet.
unfoldable pub send : List ℕ → SharedStateBlock → SharedStateBlock
unfolding write_front
send bytes st =
    let queue = st.write_queue ++ bytes ∷ [] in
    let st' = record st { write_queue = queue } in
    if length queue == 1 then write_front queue st' else st'

unfoldable pub close_queue : List (List ℕ) → SharedStateBlock → SharedStateBlock
close_queue [] st = record st { socket_open = false }
close_queue (front ∷ rest) st = record st { shutdown = true }

unfoldable pub close_socket : SharedStateBlock → SharedStateBlock
unfolding close_queue
close_socket st = close_queue st.write_queue st

-- The client's destructor. The state lives on in the handler of the write under way.
unfoldable pub destroy_client : SharedStateBlock → SharedStateBlock
unfolding close_socket
destroy_client st = close_socket st

-- The write's handler behind `pop`: an orderly shutdown and close if one is asked for, and then the
-- next message.
unfoldable pub after_pop : List (List ℕ) → SharedStateBlock → SharedStateBlock
unfolding write_front
after_pop rest st =
    let popped = record st { write_queue = rest; pending = st.pending - 1 } in
    let st' = if st.shutdown then record popped { socket_open = false } else popped in
    write_front rest st'

-- The handler of a write; its error code is not looked at. `pop` on an empty queue is undefined.
unfoldable pub written_queue : List (List ℕ) → SharedStateBlock → Outcome SharedStateBlock
unfolding after_pop
written_queue [] st = fault
written_queue (front ∷ rest) st = ok (after_pop rest st)

unfoldable pub on_written : SharedStateBlock → Outcome SharedStateBlock
unfolding written_queue
on_written st = written_queue st.write_queue st

-- The write that is under way, on the socket: async_write_sp of the front with that handler.
unfoldable pub run_write :
    Platform
    → SpTraits
    → (socket : Socket) → List (List ℕ)
    → SharedStateBlock
    → socket.World
    → Outcome (SharedStateBlock × socket.World)
unfolding async_write_sp on_written
run_write p traits socket [] st w = ok (st, w)
run_write p traits socket (front ∷ rest) st w =
    async_write_sp p traits socket 1 front (λ ec count w'. do st' ← on_written st; ok (st', w')) w

-- A number of writes, each started by the handler of the one before.
unfoldable pub run_writes :
    Platform
    → SpTraits
    → (socket : Socket) → ℕ
    → SharedStateBlock
    → socket.World
    → Outcome (SharedStateBlock × socket.World)
unfolding run_write
run_writes p traits socket zero st w = ok (st, w)
run_writes p traits socket (suc n) st w = do
  (st', w') ← run_write p traits socket st.write_queue st w
  run_writes p traits socket n st' w'

-- The receiving half: the callbacks given to the constructor, over a state `S` of the program.
pub record Callbacks {ℓ} (S : Type ℓ) : Type ℓ where
  pub on_handle : Option (S → List ℕ → S × Bool)
  pub on_death : Option (S → ErrorCode → S)

module _ {ℓ} {S : Type ℓ} where
  abbrev pub call_death : Option (S → ErrorCode → S) → S → ErrorCode → S
  call_death none st ec = st
  call_death (some f) st ec = f st ec

  abbrev pub call_handle : Option (S → List ℕ → S × Bool) → S → List ℕ → S × Bool
  call_handle none st buffer = (st, true)
  call_handle (some f) st buffer = f st buffer

  -- The handler of the receive loop.
  unfoldable pub on_received : Callbacks S → S → ErrorCode → ℕ → List ℕ → S × Bool
  unfolding failed
  on_received cb st ec count buffer =
      if failed ec
      then (call_death cb.on_death st ec, false)
      else call_handle cb.on_handle st buffer

  -- On fuel, one round for each message.
  unfoldable pub start_receive_loop :
      Platform
      → SpTraits
      → (socket : Socket) → ℕ
      → Callbacks S
      → S
      → socket.World
      → Outcome (S × socket.World)
  unfolding async_read_sp_loop on_received
  start_receive_loop p traits socket fuel cb st w =
      async_read_sp_loop p traits socket fuel (on_received cb) st w
