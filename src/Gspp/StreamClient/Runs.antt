-- ===== src/Gspp/StreamClient/Runs.antt =====
-- StreamClient at concrete inputs.
use re_bacs_env.Prelude.{
  throws, unknown, ltb, if◌then◌else◌, ℕ, ◌≡◌, refl, arith, Bool, true, false, some, suc, List, [],
  ◌∷◌, ok,
}
use re_bacs_env.Plakpacs.Platform.LittleEndian.{little_endian}
use re_bacs_env.Bacs.Asio.Buffers.{Buffers, buffers, read_buffer}
use re_bacs_env.Bacs.{SpTraits, sp_default}
use re_bacs_env.Gspp.StreamClient.{
  SharedStateBlock, send, close_socket, destroy_client, start_receive_loop, Callbacks, write_front,
}
use re_bacs_env.Gspp.StreamClient.Writing.{
  Run, start, sends, drain, Run-Inv, close_socket-drops, drain-all,
}
use re_bacs_env.Gspp.StreamClient.Writing.Invariant.{Inv, messages}
use re_bacs_env.Gspp.StreamClient.Hooks.{start_receive_loop-in_throws}
use re_bacs_env.Gspp.StreamClient.Sessions.{Session, start_receive_loop-Session}

-- Three packets are sent, and the first one is still being written.
abbrev three_sent : SharedStateBlock
three_sent = record {
  socket_open = true;
  write_queue = (1 ∷ []) ∷ (2 ∷ []) ∷ (3 ∷ []) ∷ [];
  shutdown = false;
  submitted = (1 ∷ [], true) ∷ [];
  pending = 1;
}

three_sent-Run : Run ((1 ∷ []) ∷ (2 ∷ []) ∷ (3 ∷ []) ∷ []) three_sent
unfolding send write_front
three_sent-Run = sends (3 ∷ []) (sends (2 ∷ []) (sends (1 ∷ []) start))

Run-Inv_example : Inv ((1 ∷ []) ∷ (2 ∷ []) ∷ (3 ∷ []) ∷ []) three_sent
Run-Inv_example = Run-Inv three_sent-Run

drain-all_example :
    (st' : SharedStateBlock) × (drain 3 three_sent ≡ ok st')
    × (messages st'.submitted ≡ (1 ∷ []) ∷ (2 ∷ []) ∷ (3 ∷ []) ∷ [])
    × (st'.write_queue ≡ [])
    × (st'.pending ≡ 0)
    × (false ≡ false → st'.socket_open ≡ true)
    × ((last : SharedStateBlock) × (drain 3 (destroy_client three_sent) ≡ ok last)
        × (last.socket_open ≡ false)
        × (last.write_queue ≡ []))
drain-all_example = drain-all three_sent-Run

close_socket-drops_example :
    (st' : SharedStateBlock) × (drain 3 (close_socket three_sent) ≡ ok st')
    × (st'.submitted ≡ (1 ∷ [], true) ∷ (2 ∷ [], false) ∷ (3 ∷ [], false) ∷ [])
    × (st'.socket_open ≡ false)
    × (st'.write_queue ≡ [])
close_socket-drops_example =
    close_socket-drops (1 ∷ []) ((2 ∷ []) ∷ (3 ∷ []) ∷ []) three_sent-Run refl

abbrev collect : List (List ℕ) → List ℕ → List (List ℕ) × Bool
collect st buffer = (buffer ∷ st, true)

abbrev no_bytes : Buffers
no_bytes = record { sent = []; to_read = [] }

-- A message of one byte, an empty one, and a size whose message does not come.
abbrev one_incomplete : Buffers
one_incomplete = record {
  sent = [];
  to_read = 1 ∷ 0 ∷ 0 ∷ 0 ∷ 7 ∷ 0 ∷ 0 ∷ 0 ∷ 0 ∷ 9 ∷ 0 ∷ 0 ∷ 0 ∷ 8 ∷ [];
}

-- Every message is kept, and a failure counted.
abbrev keeping : Callbacks (List (List ℕ) × ℕ)
keeping = record {
  on_handle = some (λ st msg. ((msg ∷ st.0, st.1), true));
  on_death = some (λ st ec. (st.0, suc st.1));
}

start_receive_loop-Session_example :
    (st' : List (List ℕ) × ℕ) × (w' : Buffers) × (start_receive_loop little_endian sp_default
        buffers 15 keeping
        ([], 0)
        one_incomplete
      ≡ ok (st', w'))
    × Session little_endian keeping ([], 0) (buffers.incoming one_incomplete) st'
start_receive_loop-Session_example =
    start_receive_loop-Session little_endian keeping buffers 15 ([], 0) one_incomplete (omega arith)

start_receive_loop-incomplete :
    (w' : Buffers) × (start_receive_loop little_endian sp_default buffers 15 keeping
        ([], 0)
        one_incomplete
      ≡ ok (([] ∷ (7 ∷ []) ∷ [], 1), w'))
unfolding start_receive_loop little_endian sp_default read_buffer
start_receive_loop-incomplete = (_, refl)

-- A hook that refuses messages of more than 100 bytes.
abbrev limited : SpTraits
limited = record {
  size_bytes = 4;
  on_in = λ size. if ltb 100 size then throws unknown else ok size;
  on_out = λ size. size;
}

-- The size of a message of 101 bytes, and its first two.
abbrev large_message : Buffers
large_message = record { sent = []; to_read = 101 ∷ 0 ∷ 0 ∷ 0 ∷ 7 ∷ 8 ∷ [] }

start_receive_loop-in_throws_example :
    (w' : Buffers) × (start_receive_loop little_endian limited buffers 2 keeping
        ([], 0)
        large_message
      ≡ start_receive_loop little_endian limited buffers 1 keeping ([] ∷ [], 0) w')
    × (buffers.incoming w' ≡ 7 ∷ 8 ∷ [])
unfolding little_endian
start_receive_loop-in_throws_example =
    start_receive_loop-in_throws little_endian limited buffers keeping 1 ([], 0) large_message
      (101 ∷ 0 ∷ 0 ∷ 0 ∷ []) (7 ∷ 8 ∷ []) unknown refl refl refl refl
