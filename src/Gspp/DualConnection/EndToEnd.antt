-- ===== src/Gspp/DualConnection/EndToEnd.antt =====
-- From one program's `Send` to the packet handlers of another: plakpacs, bacs and gspp together.
use re_bacs_env.Prelude.{
  ℕ, ◌+◌, ◌^◌, ◌<◌, ◌≡◌, ◌∙◌, refl, ap, arith, false, some, List, [], ◌∷◌, ◌++◌, map, String,
  Outcome, ok, length, length-append, All, All-append,
}
use re_bacs_env.Plakpacs.Platform.{Platform}
use re_bacs_env.Plakpacs.Types.{El}
use re_bacs_env.Plakpacs.Streams.{ReadStream, size_mod}
use re_bacs_env.Plakpacs.Format.{encode, Fits, IsByte}
use re_bacs_env.Plakpacs.Format.Writing.{write-encode}
use re_bacs_env.Plakpacs.Format.Bytes.{encode-IsByte, Fits-AreBytes}
use re_bacs_env.Bacs.Asio.{Reliable, ErrorCode, Socket}
use re_bacs_env.Bacs.{SpTraits}
use re_bacs_env.Bacs.Framing.{AreInverse}
use re_bacs_env.Bacs.Loops.{frames}
use re_bacs_env.Gspp.StreamClient
use re_bacs_env.Gspp.StreamClient.{SharedStateBlock, run_writes}
use re_bacs_env.Gspp.StreamClient.Transfer.{send_all, write_queue-send_all, run_writes-frames}
use re_bacs_env.Gspp.PacketHandlers.{
  HandlerResult, continue, Packets, HandlerImpl, HandlerManager, find, handle_packet,
}
use re_bacs_env.Gspp.PacketHandlers.Dispatch.{handle_packet-write}
use re_bacs_env.Gspp.DualConnection.{
  DualConnection, call, on_packet, handle_guarded, catch_exception, start_receive_loop,
}
use re_bacs_env.Gspp.DualConnection.Disconnect.{Callback}
use re_bacs_env.Gspp.DualConnection.Receiving.{
  Continues, no_more, reads_on, start_receive_loop-reads_on,
}

-- A HandlerSystem whose state is the connection.
pub record PacketIds : Type 1 where
  pub Header : Type 0
  pub IdType : Type 0
  pub id_discrete : Discrete IdType
  pub deserialize : ReadStream → Outcome (Header × ReadStream)
  pub extract : Header → IdType

abbrev pub connection_packets : Type 0 → Type 0 → PacketIds → Packets
connection_packets D A ids = record {
  State = DualConnection D A;
  Header = ids.Header;
  IdType = ids.IdType;
  id_discrete = ids.id_discrete;
  deserialize = ids.deserialize;
  extract = ids.extract;
}

module _ (D A : Type 0) (ids : PacketIds) (p : Platform) where
  -- A packet: a header and its bytes, the handler that is meant, and a value of its schema.
  pub record Letter : Type 0 where
    pub header : ids.Header
    pub front : List ℕ
    pub target : HandlerImpl (connection_packets D A ids)
    pub value : El target.schema

  abbrev pub message : Letter → List ℕ
  message l = l.front ++ encode p l.target.schema l.value

  -- The packet can be sent, and the handler that is meant is registered for its header's id: the value
  -- fits its type, the header is read from its own bytes, and the packet is not too long.
  pub record IsDeliverable (handlers : HandlerManager (connection_packets D A ids))
      (traits : SpTraits) (l : Letter) : Type 0 where
    pub known : find (connection_packets D A ids) (ids.extract l.header) handlers ≡ some l.target
    pub fits : Fits l.target.schema l.value
    pub front_bytes : All IsByte l.front
    pub small : length (message l) < size_mod
    pub fits_size_type : length (message l) < 256 ^ traits.size_bytes
    pub parsed :
        ids.deserialize (record { bytes = message l; position = 0 })
        ≡ ok (l.header, record { bytes = message l; position = length l.front })

  -- Handlers that get the packets one by one, and return Continue, with the connection not killed
  -- behind their callback.
  pub data Handles (on_handle : Callback D A HandlerResult)
      : DualConnection D A → List Letter → DualConnection D A → Type 0 where
    all_handled : {c : DualConnection D A} → Handles on_handle c [] c
    handles :
        {c c₁ c₂ c' : DualConnection D A} (l : Letter) {ls : List Letter}
        → l.target.handle c l.header l.value ≡ (ok continue, c₁)
        → call on_handle c₁ continue ≡ (ok tt, c₂)
        → c₂.killed ≡ false
        → Handles on_handle c₂ ls c'
        → Handles on_handle c (l ∷ ls) c'

  module _ (handlers : HandlerManager (connection_packets D A ids)) (traits : SpTraits) where
    handle_packet-letter :
        (c : DualConnection D A) (l : Letter)
        → IsDeliverable handlers traits l
        → handle_packet (connection_packets D A ids) p handlers c (message l)
          ≡ l.target.handle c l.header l.value
    handle_packet-letter c l d =
        handle_packet-write (connection_packets D A ids) p handlers l.target c l.header l.front
          l.value (record { bytes = message l }) d.known d.fits
          (omega (arith, d.small, length-append l.front (encode p l.target.schema l.value)))
          (write-encode p l.target.schema l.value (record { bytes = l.front })) d.parsed

    message-IsByte : (l : Letter) → IsDeliverable handlers traits l → All IsByte (message l)
    message-IsByte l d =
        All-append IsByte l.front (encode p l.target.schema l.value) d.front_bytes
          (encode-IsByte p l.target.schema l.value (Fits-AreBytes l.target.schema l.value d.fits))

    messages-All :
        (P : List ℕ → Type 0)
        → ((l : Letter) → IsDeliverable handlers traits l → P (message l))
        → (ls : List Letter) → All (IsDeliverable handlers traits) ls
        → All P (map message ls)
    messages-All P f [] h = tt
    messages-All P f (l ∷ ls) h = (f l h.0, messages-All P f ls h.1)

    Handles-Continues :
        (on_handle : Callback D A HandlerResult) (on_handle_exception : Callback D A String)
        {c c' : DualConnection D A} {ls : List Letter}
        → Handles on_handle c ls c'
        → All (IsDeliverable handlers traits) ls
        → Continues
            (handle_packet (connection_packets D A ids) p handlers)
            on_handle
            on_handle_exception
            c
            (map message ls)
            c'
    unfolding on_packet handle_guarded catch_exception
    Handles-Continues on_handle on_handle_exception all_handled d = no_more
    Handles-Continues on_handle on_handle_exception (handles {c = c} l e called alive rest) d =
        reads_on (message l) (rw (handle_packet-letter c l d.0, e, called, alive) refl)
          (Handles-Continues on_handle on_handle_exception rest d.1)

    -- Packets that a new client sends, over a socket on which no write fails, all reach the handlers
    -- that are registered for them at the connection at the other end, once each and in their order, as
    -- soon as the bytes that the one has written come in at the other; then the connection reads on.
    -- The packets are deliverable, the handlers want to continue, the hooks undo one another, and the
    -- connection has a stream client before and behind.
    pub sent-handled :
        (on_handle : Callback D A HandlerResult) (on_handle_exception : Callback D A String)
        (on_death : Callback D A ErrorCode) (socket peer : Socket) (ls : List Letter)
        (c c' : DualConnection D A) (client client' : SharedStateBlock) (rest : List ℕ) (fuel : ℕ)
        (w : socket.World)
        → AreInverse traits
        → Reliable socket
        → All (IsDeliverable handlers traits) ls
        → Handles on_handle c ls c'
        → c.stream ≡ some client
        → c'.stream ≡ some client'
        → socket.written w ≡ []
        → (st' : SharedStateBlock) × (w' : socket.World) × (run_writes p traits socket
              (length (map message ls))
              (send_all (map message ls) StreamClient.initial)
              w
            ≡ ok (st', w'))
          × ((v : peer.World)
              → peer.incoming v ≡ socket.written w' ++ rest
              → (v' : peer.World) × (start_receive_loop
                    (handle_packet (connection_packets D A ids) p handlers)
                    on_handle
                    on_handle_exception
                    p
                    traits
                    peer
                    (length (map message ls) + fuel)
                    on_death
                    c
                    v
                  ≡ start_receive_loop
                      (handle_packet (connection_packets D A ids) p handlers)
                      on_handle
                      on_handle_exception
                      p
                      traits
                      peer
                      fuel
                      on_death
                      c'
                      v')
                × (peer.incoming v' ≡ rest))
    sent-handled on_handle on_handle_exception on_death socket peer ls c c' client client' rest fuel
          w inv reliable ds run has has' empty =
        let msgs = map message ls in
        let (st', w', ran, out, _) =
          run_writes-frames p traits socket reliable msgs (send_all msgs StreamClient.initial) w
            (write_queue-send_all msgs StreamClient.initial)
            (messages-All (All IsByte) message-IsByte ls ds) in
        (
          st',
          w',
          ran,
          λ v comes.
              start_receive_loop-reads_on (handle_packet (connection_packets D A ids) p handlers)
                on_handle on_handle_exception p traits peer on_death c c' client client' msgs rest
                fuel v inv (Handles-Continues on_handle on_handle_exception run ds)
                (messages-All (λ msg. length msg < 256 ^ traits.size_bytes)
                  (λ l d. d.fits_size_type) ls ds)
                has has'
                (comes ∙ ap (λ b. b ++ rest) (out ∙ ap (λ b. b ++ frames p traits msgs) empty)),
        )
