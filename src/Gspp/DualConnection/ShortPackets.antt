-- ===== src/Gspp/DualConnection/ShortPackets.antt =====
-- What a peer can do with one short packet: plakpacs, bacs and gspp together.
use re_bacs_env.Prelude.{
  ℕ, suc, ◌^◌, ◌≤◌, ◌<◌, ◌≡◌, ◌∙◌, ap, false, some, List, ◌++◌, String, Outcome, ok, fault, length,
}
use re_bacs_env.Plakpacs.Platform.{Platform}
use re_bacs_env.Plakpacs.Types.{Fields, El, scalar, object, field}
use re_bacs_env.Bacs.Asio.{ErrorCode, Socket, success, failed}
use re_bacs_env.Bacs.{SpTraits}
use re_bacs_env.Bacs.Framing.{AreInverse, frame}
use re_bacs_env.Bacs.Loops.{async_read_sp_loop-last}
use re_bacs_env.Gspp.StreamClient.{SharedStateBlock, on_received}
use re_bacs_env.Gspp.PacketHandlers.{HandlerResult, HandlerManager, find, handle_packet}
use re_bacs_env.Gspp.PacketHandlers.Robustness.{handle_packet-short}
use re_bacs_env.Gspp.DualConnection.{
  DualConnection, handle_guarded, catch_exception, on_packet, on_stream_packet, start_receive_loop,
}
use re_bacs_env.Gspp.DualConnection.Disconnect.{Handler, Callback}
use re_bacs_env.Gspp.DualConnection.Receiving.{receives, with_client}
use re_bacs_env.Gspp.DualConnection.EndToEnd.{PacketIds, connection_packets}

module _ (D A : Type 0) (ids : PacketIds) (p : Platform) (traits : SpTraits) (socket : Socket) where
  open socket use {World, incoming}

  fault_leaves :
      (handle : Handler D A) (on_handle : Callback D A HandlerResult)
      (on_handle_exception : Callback D A String) (on_death : Callback D A ErrorCode)
      (c c' : DualConnection D A) (msg : List ℕ)
      → handle c msg ≡ (fault, c')
      → receives handle on_handle on_handle_exception on_death (ok tt, c) success (length msg) msg
        ≡ ((fault, c'), false)
  unfolding on_received failed on_stream_packet on_packet handle_guarded catch_exception
  fault_leaves handle on_handle on_handle_exception on_death c c' msg e = rw e

  -- If the schema registered for a packet's id is an object whose first field is a scalar, and the
  -- whole packet of a peer's frame has fewer bytes than that scalar, then the connection's receive
  -- loop leaves the buffer, whatever the callbacks are: no exception is thrown that the connection
  -- could catch, and no callback runs. The packet's header is read without an exception, the
  -- connection has a stream client, the hooks undo one another, and the packet fits size_type.
  pub start_receive_loop-short :
      (handlers : HandlerManager (connection_packets D A ids))
      (on_handle : Callback D A HandlerResult) (on_handle_exception : Callback D A String)
      (on_death : Callback D A ErrorCode) (c : DualConnection D A) (client : SharedStateBlock)
      (msg rest : List ℕ) (header : ids.Header) (position width : ℕ) (holder name : String)
      (fs : Fields)
      (handle : DualConnection D A
        → ids.Header
        → El (object holder (field name (scalar width) fs))
        → Outcome HandlerResult × DualConnection D A)
      (fuel : ℕ) (w : World)
      → AreInverse traits
      → c.stream ≡ some client
      → incoming w ≡ frame p traits msg ++ rest
      → length msg < 256 ^ traits.size_bytes
      → ids.deserialize (record { bytes = msg; position = 0 })
        ≡ ok (header, record { bytes = msg; position = position })
      → find (connection_packets D A ids) (ids.extract header) handlers
        ≡ some (record { schema = object holder (field name (scalar width) fs); handle = handle })
      → position ≤ length msg
      → length msg < width
      → width < 2 ^ 63
      → (w' : World) × (start_receive_loop
            (handle_packet (connection_packets D A ids) p handlers)
            on_handle
            on_handle_exception
            p
            traits
            socket
            (suc fuel)
            on_death
            c
            w
          ≡ ok ((fault, c), w'))
        × (incoming w' ≡ rest)
  start_receive_loop-short handlers on_handle on_handle_exception on_death c client msg rest header
        position width holder name fs handle fuel w inv has comes fits parsed known within short
        small =
      let hears = handle_packet (connection_packets D A ids) p handlers in
      let leaves = fault_leaves hears on_handle on_handle_exception on_death c c msg (
        handle_packet-short (connection_packets D A ids) p handlers c msg header position width
          holder name fs handle parsed known within short small) in
      let (w', ended, left) =
        async_read_sp_loop-last p traits socket
          (receives hears on_handle on_handle_exception on_death) msg rest fuel (ok tt, c) w inv
          fits (ap (λ r. r.1) leaves) comes in
      (
        w',
        with_client hears on_handle on_handle_exception p traits socket on_death c client (suc fuel)
              w has
            ∙ ended
            ∙ ap (λ r. ok (r.0, w')) leaves,
        left,
      )
