-- ===== src/Gspp/DualConnection/Exceptions.antt =====
-- DualConnection's receive loop, when a handler throws a std::exception.
use re_bacs_env.Prelude.{
  ℕ, suc, ◌+◌, ◌^◌, ◌<◌, ◌≡◌, ◌≢◌, ◌∙◌, refl, ap, sym, true, false, some, List, ◌++◌, String, ok,
  throws, runtime_error, length, All,
}
use re_bacs_env.Plakpacs.Platform.{Platform}
use re_bacs_env.Bacs.Asio.{ErrorCode, Socket}
use re_bacs_env.Bacs.{SpTraits}
use re_bacs_env.Bacs.Framing.{AreInverse, frame}
use re_bacs_env.Bacs.Loops.{frames}
use re_bacs_env.Gspp.StreamClient.{SharedStateBlock}
use re_bacs_env.Gspp.PacketHandlers.{HandlerResult, disconnect}
use re_bacs_env.Gspp.DualConnection.{
  Build, standard, dont_catch, rethrow, on_packet_in, DualConnection, call, schedule_disconnect,
  handle_guarded, on_exception, catch_exception, on_packet, start_receive_loop,
}
use re_bacs_env.Gspp.DualConnection.Disconnect.{Handler, Callback}
use re_bacs_env.Gspp.DualConnection.Receiving.{Continues, start_receive_loop-disconnects}

module _ {ℓ κ} {D : Type ℓ} {A : Type κ} (handle : Handler D A)
    (on_handle : Callback D A HandlerResult) (on_handle_exception : Callback D A String) where
  caught :
      (c c₁ c₂ c' : DualConnection D A) (msg : List ℕ) (what : String)
      → handle c msg ≡ (throws (runtime_error what), c₁)
      → call on_handle_exception c₁ what ≡ (ok tt, c₂)
      → call on_handle (record c₂ { killed = true }) disconnect ≡ (ok tt, c')
      → on_packet handle on_handle on_handle_exception c msg ≡ (ok false, c')
  unfolding on_packet handle_guarded catch_exception on_exception schedule_disconnect
  caught c c₁ c₂ c' msg what h e d = rw (h, e, d)

  not_caught :
      (build : Build) (c c₁ : DualConnection D A) (msg : List ℕ) (what : String)
      → handle c msg ≡ (throws (runtime_error what), c₁)
      → build ≢ standard
      → on_packet_in handle on_handle on_handle_exception build c msg
        ≡ (throws (runtime_error what), c₁)
  unfolding on_packet_in handle_guarded
  not_caught standard c c₁ msg what h ne = absurd (ne refl)
  not_caught dont_catch c c₁ msg what h ne = rw h
  not_caught rethrow c c₁ msg what h ne = rw h

  -- A std::exception from the handler of some message does not leave the receive loop, but is its end:
  -- behind the exception callback the connection is marked as killed, the handle callback gets
  -- Disconnect and finds the mark, the connection is as that leaves it, with the mark, and no byte
  -- behind the message is read. The callbacks do not throw, and the handle callback does not clear
  -- the mark, which only the class can write. In a debug build the exception leaves the function
  -- instead, with the connection as the handler left it.
  pub start_receive_loop-exception :
      (p : Platform) (traits : SpTraits) (socket : Socket) (on_death : Callback D A ErrorCode)
      (c c₁ c₂ c₃ c' : DualConnection D A) (client : SharedStateBlock) (msgs : List (List ℕ))
      (last rest : List ℕ) (what : String) (build : Build) (fuel : ℕ) (w : socket.World)
      → AreInverse traits
      → Continues handle on_handle on_handle_exception c msgs c₁
      → All (λ msg. length msg < 256 ^ traits.size_bytes) msgs
      → handle c₁ last ≡ (throws (runtime_error what), c₂)
      → call on_handle_exception c₂ what ≡ (ok tt, c₃)
      → call on_handle (record c₃ { killed = true }) disconnect ≡ (ok tt, c')
      → ((d : DualConnection D A) (r : HandlerResult)
          → d.killed ≡ true
          → (call on_handle d r).1.killed ≡ true)
      → length last < 256 ^ traits.size_bytes
      → c.stream ≡ some client
      → socket.incoming w ≡ frames p traits msgs ++ (frame p traits last ++ rest)
      → build ≢ standard
      → (w' : socket.World) × (start_receive_loop handle on_handle on_handle_exception p traits
            socket
            (length msgs + suc fuel)
            on_death
            c
            w
          ≡ ok ((ok tt, c'), w'))
        × (c'.killed ≡ true)
        × (socket.incoming w' ≡ rest)
        × (on_packet_in handle on_handle on_handle_exception build c₁ last
            ≡ (throws (runtime_error what), c₂))
  start_receive_loop-exception p traits socket on_death c c₁ c₂ c₃ c' client msgs last rest what
        build fuel w inv run fits throwing told ended keep fits' has e debug =
      let (w', loop, left) =
        start_receive_loop-disconnects handle on_handle on_handle_exception p traits socket on_death
          c c₁ c' client msgs last rest fuel w inv run fits
          (caught c₁ c₂ c₃ c' last what throwing told ended) fits' has e in
      (
        w',
        loop,
        sym (ap (λ r. r.1.killed) ended) ∙ keep (record c₃ { killed = true }) disconnect refl,
        left,
        not_caught build c₁ c₂ last what throwing debug,
      )
