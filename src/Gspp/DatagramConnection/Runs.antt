-- ===== src/Gspp/DatagramConnection/Runs.antt =====
-- DatagramConnection at concrete inputs: the endpoints are numbers.
use re_bacs_env.Prelude.{
  ℕ, Bool, true, false, ◌≡◌, ◌≢◌, ◌>>=◌, diverges, refl, Option, some, List, [], ◌∷◌, Outcome, ok,
  unknown, length, arith,
}
use re_bacs_env.Plakpacs.Platform.LittleEndian.{little_endian}
use re_bacs_env.Bacs.Asio.{success, failure, failed}
use re_bacs_env.Bacs.{sp_default}
use re_bacs_env.Gspp.DatagramConnection.{
  SharedStateBlock, Received, DatagramClient, DatagramSocket, recv_loop, recv_loop_async, send,
  on_receive,
}
use re_bacs_env.Gspp.DatagramConnection.Looping.{receives, recv_loop_async-endless}
use re_bacs_env.Gspp.DatagramConnection.Datagrams.{send_all}
use re_bacs_env.Gspp.DatagramConnection.Transfer.{sent-received}
use re_bacs_env.Plakpacs.Types.{scalar, initial}
use re_bacs_env.Plakpacs.Streams.{WriteStream}
use re_bacs_env.Plakpacs.Serializer.{write, read}
use re_bacs_env.Plakpacs.Format.{encode}
use re_bacs_env.Bacs.Framing.{frame}

abbrev refused : Received ℕ
refused = record { error = failure 111; ep = 5; datagram = [] }

abbrev hello : Received ℕ
hello = record { error = success; ep = 5; datagram = 104 ∷ 105 ∷ [] }

abbrev fresh : SharedStateBlock ℕ
fresh = record { socket_open = true; sent = []; recv_buffer = 0 ∷ 0 ∷ 0 ∷ [] }

abbrev keep_bytes : Option (List (List ℕ) → ℕ → List ℕ → ℕ → Outcome (List (List ℕ)))
keep_bytes = some (λ seen ep buffer count. ok (buffer ∷ seen))

abbrev packets : List (DatagramClient ℕ × List ℕ)
packets = (record { endpoint = 5 }, 1 ∷ []) ∷ (record { endpoint = 6 }, 2 ∷ 3 ∷ []) ∷ []

send_all-packets :
    send_all little_endian sp_default packets fresh
    ≡ ok
        (record fresh { sent = (5, 1 ∷ 0 ∷ 0 ∷ 0 ∷ 1 ∷ []) ∷ (6, 2 ∷ 0 ∷ 0 ∷ 0 ∷ 2 ∷ 3 ∷ []) ∷ [] })
unfolding send little_endian sp_default
send_all-packets = refl

abbrev keep_buffer : List (List ℕ) → ℕ → List ℕ → ℕ → Outcome (List (List ℕ))
keep_buffer seen ep buffer count = ok (buffer ∷ seen)

-- A peer with bytes of an earlier datagram.
abbrev used : SharedStateBlock ℕ
used = record fresh { recv_buffer = 9 ∷ 9 ∷ 9 ∷ 9 ∷ 9 ∷ 9 ∷ 9 ∷ 9 ∷ [] }

sent-received_example :
    (ws : WriteStream) × (datagram buffer : List ℕ) × (write little_endian
        (scalar 2)
        261
        (record { bytes = [] })
      ≡ ok ws)
    × (send little_endian sp_default (record { endpoint = 6 }) ws.bytes fresh
        ≡ ok (record fresh { sent = (6, datagram) ∷ [] }))
    × (on_receive unknown
          (some keep_buffer)
          (record { error = success; ep = 5; datagram = datagram })
          ([], used)
        ≡ (keep_buffer [] 5 buffer (length datagram) >>= λ app'.
            ok (app', record used { recv_buffer = buffer })))
    × (read little_endian (scalar 2) (initial (scalar 2)) (record { bytes = buffer; position = 4 })
        ≡ ok (261, record { bytes = buffer; position = length datagram }))
    × (length buffer ≡ 8)
unfolding frame encode little_endian sp_default
sent-received_example =
    sent-received little_endian sp_default unknown keep_buffer (scalar 2) 261
      (record { endpoint = 6 }) 5 fresh used [] (omega arith) (omega arith) (omega arith)

-- A socket by whether it is closed, with what comes in.
abbrev next_receive : Bool × List (Received ℕ) → Received ℕ × (Bool × List (Received ℕ))
next_receive (true, rs) = (refused, (true, rs))
next_receive (false, []) = (refused, (false, []))
next_receive (false, r ∷ rs) = (r, (false, rs))

next_receive-closed :
    (w : Bool × List (Received ℕ))
    → w.0 ≡ true
    → (failed (next_receive w).0.error ≡ true)
      × ((next_receive w).0.datagram ≡ [])
      × ((next_receive w).1.0 ≡ true)
unfolding failed
next_receive-closed (true, rs) h = (refl, refl, refl)
next_receive-closed (false, rs) h = cc

abbrev incoming : DatagramSocket ℕ
incoming = record {
  World = Bool × List (Received ℕ);
  async_receive_from = next_receive;
  close_socket = λ w. (true, w.1);
  IsClosed = λ w. w.0 ≡ true;
  close-IsClosed = λ w. refl;
  receive-IsClosed = next_receive-closed;
}

recv_loop_async-endless_example :
    (recv_loop_async incoming unknown keep_bytes 2 ([], fresh) (false, hello ∷ []) ≡ (
      recv_loop unknown keep_bytes
        (receives incoming unknown keep_bytes 2 (false, hello ∷ []))
        ([], fresh)
      >>= λ s'. diverges))
    × (recv_loop_async incoming unknown keep_bytes 2 ([], fresh) (false, hello ∷ [])
        ≢ ok (([], fresh), (false, [])))
    × (recv_loop unknown keep_bytes
          (receives incoming unknown keep_bytes 2 (true, hello ∷ []))
          ([], fresh)
        ≡ ok ([], fresh))
    × (recv_loop_async incoming unknown keep_bytes 2 ([], fresh) (true, hello ∷ []) ≡ diverges)
recv_loop_async-endless_example =
    recv_loop_async-endless incoming unknown keep_bytes 2 ([], fresh) (false, hello ∷ [])
      (true, hello ∷ []) (([], fresh), (false, [])) refl
