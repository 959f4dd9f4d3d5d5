-- ===== src/Gspp/PacketHandlers/Runs.antt =====
-- HandlerSystem with packets that start with their id in one byte.
use re_bacs_env.Prelude.{ℕ, ◌+◌, ◌≡◌, refl, arith, [], ◌∷◌, ok, All}
use native.Mathlib.Decide.{ℕ_discrete}
use re_bacs_env.Plakpacs.Platform.LittleEndian.{little_endian}
use re_bacs_env.Plakpacs.Types.{scalar}
use re_bacs_env.Plakpacs.Streams.{read_value, write_value}
use re_bacs_env.Plakpacs.Serializer.{write}
use re_bacs_env.Plakpacs.Format.{encode}
use re_bacs_env.Gspp.PacketHandlers.{
  continue, disconnect, Packets, HandlerImpl, HandlerManager, find, handle_packet,
}
use re_bacs_env.Gspp.PacketHandlers.Dispatch.{handle_packet-write}
use re_bacs_env.Plakpacs.Serializer.Safety.{widest}
use re_bacs_env.Gspp.PacketHandlers.Robustness.{IsContained, Tolerates, handle_packet-IsContained}
use re_bacs_env.Gspp.PacketHandlers.Registration.{Registrators}

-- The program keeps the sum of what it got.
abbrev packets : Packets
packets = record {
  State = ℕ;
  Header = ℕ;
  IdType = ℕ;
  id_discrete = ℕ_discrete;
  deserialize = λ rs. read_value little_endian 1 rs;
  extract = λ header. header;
}

abbrev add_handler : HandlerImpl packets
add_handler = record { schema = scalar 2; handle = λ st header v. (ok continue, st + v) }

abbrev stop_handler : HandlerImpl packets
stop_handler = record { schema = scalar 1; handle = λ st header v. (ok disconnect, st) }

abbrev handlers : HandlerManager packets
handlers = (7, stop_handler) ∷ (3, add_handler) ∷ []

abbrev registrators : Registrators packets
registrators = (3, add_handler) ∷ (7, stop_handler) ∷ []

handle_packet-write_example :
    handle_packet packets little_endian handlers 100 (3 ∷ 5 ∷ 1 ∷ []) ≡ (ok continue, 361)
unfolding ℕ_discrete find write encode read_value write_value little_endian
handle_packet-write_example =
    handle_packet-write packets little_endian handlers add_handler 100 3 (3 ∷ []) 261
      (record { bytes = 3 ∷ 5 ∷ 1 ∷ [] }) refl (omega arith) (omega arith) refl refl

handlers-Tolerate : All (λ entry. Tolerates packets 3 entry.1) handlers
unfolding widest
handlers-Tolerate = (
  record { narrow = omega arith; handles = λ st header v. tt },
  (record { narrow = omega arith; handles = λ st header v. tt }, tt),
)

handle_packet-IsContained_example :
    IsContained (handle_packet packets little_endian handlers 100 (3 ∷ 5 ∷ 1 ∷ [])).0
unfolding read_value little_endian
handle_packet-IsContained_example =
    handle_packet-IsContained packets little_endian handlers 100 (3 ∷ 5 ∷ 1 ∷ []) (omega arith)
      (refl, omega arith, omega arith) handlers-Tolerate
