-- ===== src/Gspp/DualConnection/Runs.antt =====
-- DualConnection with handlers that count the calls.
use re_bacs_env.Prelude.{
  ℕ, suc, arith, ◌≡◌, refl, true, false, none, some, [], ◌∷◌, String, ok, throws, runtime_error,
}
use re_bacs_env.Gspp.PacketHandlers.{HandlerResult, continue}
use re_bacs_env.Gspp.DualConnection.{
  rethrow, on_packet_in, DualConnection, call, schedule_disconnect, on_exception,
  start_receive_loop, on_packet, handle_guarded, catch_exception,
}
use re_bacs_env.Gspp.DualConnection.Disconnect.{Handler, Callback}
use re_bacs_env.Plakpacs.Platform.LittleEndian.{little_endian}
use re_bacs_env.Bacs.Asio.Buffers.{Buffers, buffers}
use re_bacs_env.Bacs.{sp_default}
use re_bacs_env.Bacs.Framing.{sp_default-AreInverse, frame}
use re_bacs_env.Gspp.StreamClient
use re_bacs_env.Gspp.StreamClient.{SharedStateBlock, run_writes}
use re_bacs_env.Gspp.DualConnection.Exceptions.{start_receive_loop-exception}
use re_bacs_env.Gspp.DualConnection.Receiving.{
  Continues, no_more, reads_on, start_receive_loop-disconnects,
}

abbrev alive : DualConnection ℕ ℕ
alive = record { id = 1; killed = false; stream = none; dg = some 9; app = 0 }

abbrev dead : DualConnection ℕ ℕ
dead = record { id = 1; killed = true; stream = none; dg = some 9; app = 0 }

-- An empty packet is refused.
abbrev handle : Handler ℕ ℕ
handle c [] = (throws (runtime_error "empty"), c)
handle c (b ∷ bytes) = (ok continue, record c { app = suc c.app })

abbrev on_handle : DualConnection ℕ ℕ → HandlerResult → DualConnection ℕ ℕ
on_handle c r = record c { app = suc c.app }

abbrev on_handle_exception : DualConnection ℕ ℕ → String → DualConnection ℕ ℕ
on_handle_exception c what = record c { app = 50 }

abbrev counting : Callback ℕ ℕ HandlerResult
counting = some (λ c r. (ok tt, on_handle c r))

abbrev connected : DualConnection ℕ ℕ
connected = record alive { stream = some StreamClient.initial }

-- A message of one byte, an empty one, and a byte of the next.
abbrev three_messages : Buffers
three_messages = record { sent = []; to_read = 1 ∷ 0 ∷ 0 ∷ 0 ∷ 7 ∷ 0 ∷ 0 ∷ 0 ∷ 0 ∷ 9 ∷ [] }

one-Continues :
    Continues handle counting none connected ((7 ∷ []) ∷ []) (record connected { app = 2 })
unfolding on_packet handle_guarded catch_exception call
one-Continues = reads_on (7 ∷ []) refl no_more

start_receive_loop-disconnects_example :
    (w' : Buffers) × (start_receive_loop handle counting none little_endian sp_default buffers 2
        none connected three_messages
      ≡ ok ((ok tt, record connected { killed = true; app = 3 }), w'))
    × (buffers.incoming w' ≡ 9 ∷ [])
start_receive_loop-disconnects_example =
    start_receive_loop-disconnects handle counting none little_endian sp_default buffers none
      connected (record connected { app = 2 }) (record connected { killed = true; app = 3 })
      StreamClient.initial ((7 ∷ []) ∷ []) [] (9 ∷ []) 0 three_messages sp_default-AreInverse
      one-Continues (unfold sp_default in (omega arith, tt))
      (unfold on_packet handle_guarded catch_exception on_exception call schedule_disconnect in
        refl)
      (unfold sp_default in omega arith) refl (unfold frame little_endian sp_default in refl)

counting-killed :
    (d : DualConnection ℕ ℕ) (r : HandlerResult)
    → d.killed ≡ true
    → (call counting d r).1.killed ≡ true
unfolding call
counting-killed d r h = h

start_receive_loop-exception_example :
    (w' : Buffers) × (start_receive_loop handle counting
        (some (λ d e. (ok tt, on_handle_exception d e)))
        little_endian
        sp_default
        buffers
        2
        none
        connected
        three_messages
      ≡ ok ((ok tt, record connected { killed = true; app = 51 }), w'))
    × (true ≡ true)
    × (buffers.incoming w' ≡ 9 ∷ [])
    × (on_packet_in handle counting
          (some (λ d e. (ok tt, on_handle_exception d e)))
          rethrow
          (record connected { app = 2 })
          []
        ≡ (throws (runtime_error "empty"), record connected { app = 2 }))
start_receive_loop-exception_example =
    start_receive_loop-exception handle counting (some (λ d e. (ok tt, on_handle_exception d e)))
      little_endian sp_default buffers none connected (record connected { app = 2 })
      (record connected { app = 2 }) (record connected { app = 50 })
      (record connected { killed = true; app = 51 }) StreamClient.initial ((7 ∷ []) ∷ []) []
      (9 ∷ []) "empty" rethrow 0 three_messages sp_default-AreInverse
      (unfold on_packet handle_guarded catch_exception call in reads_on (7 ∷ []) refl no_more)
      (unfold sp_default in (omega arith, tt)) refl (unfold call in refl) (unfold call in refl)
      counting-killed (unfold sp_default in omega arith) refl
      (unfold frame little_endian sp_default in refl) (λ e. cc)
