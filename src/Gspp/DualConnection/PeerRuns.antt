-- ===== src/Gspp/DualConnection/PeerRuns.antt =====
-- Packets from a peer, at concrete inputs.
use re_bacs_env.Prelude.{ℕ, ◌+◌, ◌++◌, arith, fault, ◌≡◌, refl, false, none, some, [], ◌∷◌, ok}
use re_bacs_env.Gspp.PacketHandlers.{continue}
use re_bacs_env.Gspp.DualConnection.{DualConnection, call, start_receive_loop}
use native.Mathlib.Decide.{ℕ_discrete}
use re_bacs_env.Plakpacs.Platform.LittleEndian.{little_endian}
use re_bacs_env.Plakpacs.Types.{Fields, scalar, object, field, no_fields}
use re_bacs_env.Plakpacs.Streams.{read_value}
use re_bacs_env.Plakpacs.Format.{encode}
use re_bacs_env.Bacs.Asio.Buffers.{Buffers, buffers, buffers-Reliable}
use re_bacs_env.Bacs.{sp_default}
use re_bacs_env.Bacs.Framing.{sp_default-AreInverse, frame}
use re_bacs_env.Gspp.StreamClient
use re_bacs_env.Gspp.StreamClient.{SharedStateBlock, run_writes}
use re_bacs_env.Gspp.StreamClient.Transfer.{send_all}
use re_bacs_env.Gspp.PacketHandlers.{HandlerImpl, HandlerManager, find, handle_packet}
use re_bacs_env.Gspp.DualConnection.EndToEnd.{
  PacketIds, connection_packets, Letter, message, IsDeliverable, Handles, all_handled, handles,
  sent-handled,
}
use re_bacs_env.Gspp.DualConnection.ShortPackets.{start_receive_loop-short}

abbrev connected : DualConnection ℕ ℕ
connected = record {
  id = 1;
  killed = false;
  stream = some StreamClient.initial;
  dg = some 9;
  app = 0;
}

abbrev ids : PacketIds
ids = record {
  Header = ℕ;
  IdType = ℕ;
  id_discrete = ℕ_discrete;
  deserialize = λ rs. read_value little_endian 1 rs;
  extract = λ header. header;
}

abbrev add_handler : HandlerImpl (connection_packets ℕ ℕ ids)
add_handler = record {
  schema = scalar 2;
  handle = λ c header v. (ok continue, record c { app = c.app + v });
}

abbrev handlers : HandlerManager (connection_packets ℕ ℕ ids)
handlers = (3, add_handler) ∷ []

abbrev letter : Letter ℕ ℕ ids little_endian
letter = record { header = 3; front = 3 ∷ []; target = add_handler; value = 261 }

letter-IsDeliverable : IsDeliverable ℕ ℕ ids little_endian handlers sp_default letter
unfolding find ℕ_discrete encode little_endian sp_default read_value
letter-IsDeliverable = record {
  known = refl;
  fits = omega arith;
  front_bytes = (omega arith, tt);
  small = omega arith;
  fits_size_type = omega arith;
  parsed = refl;
}

abbrev empty_buffers : Buffers
empty_buffers = record { sent = []; to_read = [] }

letter-Handles :
    Handles ℕ ℕ ids little_endian none connected (letter ∷ []) (record connected { app = 261 })
unfolding call
letter-Handles = handles letter refl refl refl all_handled

sent-handled_example :
    (st' : SharedStateBlock) × (w' : Buffers) × (run_writes little_endian sp_default buffers 1
        (send_all (message ℕ ℕ ids little_endian letter ∷ []) StreamClient.initial)
        empty_buffers
      ≡ ok (st', w'))
    × ((v : Buffers)
        → buffers.incoming v ≡ buffers.written w' ++ 9 ∷ []
        → (v' : Buffers) × (start_receive_loop
              (handle_packet (connection_packets ℕ ℕ ids) little_endian handlers)
              none
              none
              little_endian
              sp_default
              buffers
              2
              none
              connected
              v
            ≡ start_receive_loop
                (handle_packet (connection_packets ℕ ℕ ids) little_endian handlers)
                none
                none
                little_endian
                sp_default
                buffers
                1
                none
                (record connected { app = 261 })
                v')
          × (buffers.incoming v' ≡ 9 ∷ []))
sent-handled_example =
    sent-handled ℕ ℕ ids little_endian handlers sp_default none none none buffers buffers
      (letter ∷ []) connected (record connected { app = 261 }) StreamClient.initial
      StreamClient.initial (9 ∷ []) 1 empty_buffers sp_default-AreInverse buffers-Reliable
      (letter-IsDeliverable, tt) letter-Handles refl refl refl

-- struct Ping { uint32_t time; };
abbrev ping_fields : Fields
ping_fields = field "time" (scalar 4) no_fields

abbrev ping_handler : HandlerImpl (connection_packets ℕ ℕ ids)
ping_handler = record {
  schema = object "Ping" ping_fields;
  handle = λ c header v. (ok continue, record c { app = v.0 });
}

-- A frame of two bytes, the id and one of the four bytes of a Ping.
abbrev short_frame : Buffers
short_frame = record { sent = []; to_read = 2 ∷ 0 ∷ 0 ∷ 0 ∷ 5 ∷ 77 ∷ [] }

start_receive_loop-short_example :
    (w' : Buffers) × (start_receive_loop
        (handle_packet (connection_packets ℕ ℕ ids) little_endian ((5, ping_handler) ∷ []))
        none
        none
        little_endian
        sp_default
        buffers
        1
        none
        connected
        short_frame
      ≡ ok ((fault, connected), w'))
    × (buffers.incoming w' ≡ [])
unfolding find ℕ_discrete little_endian sp_default read_value frame
start_receive_loop-short_example =
    start_receive_loop-short ℕ ℕ ids little_endian sp_default buffers ((5, ping_handler) ∷ []) none
      none none connected StreamClient.initial (5 ∷ 77 ∷ []) [] 5 1 4 "Ping" "time" no_fields
      ping_handler.handle 0 short_frame sp_default-AreInverse refl refl (omega arith) refl refl
      (omega arith) (omega arith) (omega arith)
