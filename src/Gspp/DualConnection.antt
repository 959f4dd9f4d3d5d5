-- ===== src/Gspp/DualConnection.antt =====
-- gspp-net/gspp/dual_connection.hpp.
pub mod Disconnect
pub mod Receiving
pub mod Exceptions
pub mod EndToEnd
pub mod ShortPackets
pub mod LifeCycle
mod Runs
mod PeerRuns
use re_bacs_env.Prelude.{
  ℕ, Bool, true, false, not, ◌&&◌, Option, none, some, List, String, Outcome, ok, throws, fault,
  diverges, ill_formed, runtime_error, unknown, ◌>>-◌,
}
use mathlib.Core.Option
use re_bacs_env.Gspp.StreamClient
use re_bacs_env.Gspp.StreamClient.{SharedStateBlock, Callbacks, close_socket}
use re_bacs_env.Plakpacs.Platform.{Platform}
use re_bacs_env.Bacs.Asio.{ErrorCode, Socket}
use re_bacs_env.Bacs.{SpTraits}
use re_bacs_env.Gspp.PacketHandlers.{HandlerResult, continue, disconnect}

-- `D` is the datagram client, and `A` what the program's handlers and callbacks keep of their own.
pub record DualConnection {ℓ κ} (D : Type ℓ) (A : Type κ) : Type (ℓ ⊔ κ) where
  pub id : ℕ
  pub killed : Bool
  pub stream : Option SharedStateBlock
  pub dg : Option D
  pub app : A

-- A call that can throw, and the connection as the call leaves it, also if it throws.
abbrev pub Attempt {ℓ κ μ} : Type ℓ → Type κ → Type μ → Type (ℓ ⊔ κ ⊔ μ)
Attempt D A B = Outcome B × DualConnection D A

-- The macros that a program may be built with: none, GSPP_DEBUG_DONT_CATCH_HANDLER_EXCEPTIONS, with
-- which only a class is caught that nothing throws, and GSPP_DEBUG_RETHROW_HANDLER_EXCEPTIONS, with
-- which the `catch` block begins with `throw`.
pub data Build : Type 0 where
  standard dont_catch rethrow : Build

abbrev pub is_continue : HandlerResult → Bool
is_continue continue = true
is_continue disconnect = false

module _ {ℓ κ} {D : Type ℓ} {A : Type κ} where
  -- The constructor.
  unfoldable pub connection : ℕ → A → DualConnection D A
  connection id app = record { id = id; killed = false; stream = none; dg = none; app = app }

  -- The stream client of SetupStreamClient, whose callbacks are `on_packet` and the death callback.
  unfoldable pub setup_stream_client : DualConnection D A → DualConnection D A
  setup_stream_client c = record c { stream = some StreamClient.initial }

  unfoldable pub schedule_disconnect : DualConnection D A → DualConnection D A
  schedule_disconnect c = record c { killed = true }

  unfoldable pub connect_dg : D → DualConnection D A → DualConnection D A
  connect_dg client c = record c { dg = some client }

  unfoldable pub close : DualConnection D A → DualConnection D A
  close c = record c { stream = Option.map close_socket c.stream }

  -- The names kept for compatibility.
  abbrev pub tcp : DualConnection D A → Option SharedStateBlock
  tcp c = c.stream

  abbrev pub udp : DualConnection D A → Option D
  udp c = c.dg

  -- A std::function: called only if it is there.
  unfoldable pub call {μ} :
      {X : Type μ}
      → Option (DualConnection D A → X → Attempt D A (Unit {0}))
      → DualConnection D A
      → X
      → Attempt D A (Unit {0})
  call none c x = (ok tt, c)
  call (some f) c x = f c x

  module _ (handle : DualConnection D A → List ℕ → Attempt D A HandlerResult)
      (on_handle : Option (DualConnection D A → HandlerResult → Attempt D A (Unit {0})))
      (on_handle_exception : Option (DualConnection D A → String → Attempt D A (Unit {0}))) where
    -- The `try` block: whether to read on.
    unfoldable pub handle_guarded : DualConnection D A → List ℕ → Attempt D A Bool
    unfolding call
    handle_guarded c buffer = handle c buffer >>- λ result c'.
        call on_handle c' result >>- λ _ c''. (ok (is_continue result && not c''.killed), c'')

    -- The `catch` block, on the exception's text.
    unfoldable pub on_exception : DualConnection D A → String → Attempt D A Bool
    unfolding call schedule_disconnect
    on_exception c what = call on_handle_exception c what >>- λ _ c'.
        call on_handle (schedule_disconnect c') disconnect >>- λ _ c''. (ok false, c'')

    -- What is not derived from std::exception passes.
    unfoldable pub catch_exception : Attempt D A Bool → Attempt D A Bool
    unfolding on_exception
    catch_exception (ok more, c) = (ok more, c)
    catch_exception (throws (runtime_error what), c) = on_exception c what
    catch_exception (throws unknown, c) = (throws unknown, c)
    catch_exception (fault, c) = (fault, c)
    catch_exception (diverges, c) = (diverges, c)
    catch_exception (ill_formed, c) = (ill_formed, c)

    -- The function that SetupStreamClient gives to the stream client, in a build without the macros.
    unfoldable pub on_packet : DualConnection D A → List ℕ → Attempt D A Bool
    unfolding handle_guarded catch_exception
    on_packet c buffer = catch_exception (handle_guarded c buffer)

    -- The same function in any build.
    unfoldable pub on_packet_in : Build → DualConnection D A → List ℕ → Attempt D A Bool
    unfolding on_packet handle_guarded
    on_packet_in standard c buffer = on_packet c buffer
    on_packet_in dont_catch c buffer = handle_guarded c buffer
    on_packet_in rethrow c buffer = handle_guarded c buffer

    -- What is to be done behind `on_packet`: an exception leaves the completion handler, and then
    -- nothing more is read.
    abbrev pub answer : Attempt D A Bool → Attempt D A (Unit {0}) × Bool
    answer (ok more, c) = ((ok tt, c), more)
    answer (throws e, c) = ((throws e, c), false)
    answer (fault, c) = ((fault, c), false)
    answer (diverges, c) = ((diverges, c), false)
    answer (ill_formed, c) = ((ill_formed, c), false)

    -- The first function of SetupStreamClient, as StreamClient's `on_handle`.
    unfoldable pub on_stream_packet :
        Attempt D A (Unit {0}) → List ℕ → Attempt D A (Unit {0}) × Bool
    unfolding on_packet
    on_stream_packet (ok done, c) buffer = answer (on_packet c buffer)
    on_stream_packet (throws e, c) buffer = ((throws e, c), false)
    on_stream_packet (fault, c) buffer = ((fault, c), false)
    on_stream_packet (diverges, c) buffer = ((diverges, c), false)
    on_stream_packet (ill_formed, c) buffer = ((ill_formed, c), false)

    -- The second one, as its `on_death`.
    unfoldable pub on_stream_death :
        Option (DualConnection D A → ErrorCode → Attempt D A (Unit {0}))
        → Attempt D A (Unit {0})
        → ErrorCode
        → Attempt D A (Unit {0})
    unfolding call
    on_stream_death on_death died ec = died >>- λ _ c. call on_death c ec

    -- The callbacks of the stream client.
    abbrev pub stream_callbacks :
        Option (DualConnection D A → ErrorCode → Attempt D A (Unit {0}))
        → Callbacks (Attempt D A (Unit {0}))
    stream_callbacks on_death = record {
      on_handle = some on_stream_packet;
      on_death = some (on_stream_death on_death);
    }

    -- StartReceiveLoop: nothing, unless there is a stream client.
    unfoldable pub receive_from :
        Platform
        → SpTraits
        → (socket : Socket) → ℕ
        → Option (DualConnection D A → ErrorCode → Attempt D A (Unit {0}))
        → Option SharedStateBlock
        → DualConnection D A
        → socket.World
        → Outcome (Attempt D A (Unit {0}) × socket.World)
    unfolding on_stream_packet on_stream_death StreamClient.start_receive_loop
    receive_from p traits socket fuel on_death none c w = ok ((ok tt, c), w)
    receive_from p traits socket fuel on_death (some client) c w =
        StreamClient.start_receive_loop p traits socket fuel (stream_callbacks on_death) (ok tt, c)
          w

    unfoldable pub start_receive_loop :
        Platform
        → SpTraits
        → (socket : Socket) → ℕ
        → Option (DualConnection D A → ErrorCode → Attempt D A (Unit {0}))
        → DualConnection D A
        → socket.World
        → Outcome (Attempt D A (Unit {0}) × socket.World)
    unfolding receive_from
    start_receive_loop p traits socket fuel on_death c w =
        receive_from p traits socket fuel on_death c.stream c w
