-- ===== src/Gspp/StreamClient/Receiving.antt =====
-- StreamClient's receive loop.
use re_bacs_env.Prelude.{
  ℕ, ◌+◌, ◌^◌, ◌<◌, ◌≡◌, refl, Bool, true, Option, some, List, [], ◌∷◌, ◌++◌, ok, length,
}
use re_bacs_env.Plakpacs.Platform.{Platform}
use re_bacs_env.Bacs.Asio.{ErrorCode, Socket}
use re_bacs_env.Bacs.{SpTraits, sp_default}
use re_bacs_env.Bacs.Framing.{AreInverse}
use re_bacs_env.Bacs.Loops.{
  frames, deliver, ReadsOn, StopsOnError, async_read_sp_loop-frames, async_read_sp_loop-ends,
}
use re_bacs_env.Gspp.StreamClient.{Callbacks, on_received, start_receive_loop}

module _ {ℓ} {S : Type ℓ} where
  -- The state after `on_handle` has run on each message.
  abbrev pub handle_all : (S → List ℕ → S × Bool) → S → List (List ℕ) → S
  handle_all f st [] = st
  handle_all f st (msg ∷ msgs) = handle_all f (f st msg).0 msgs

  -- Each message fits the size type, and `on_handle` answers true.
  abbrev pub Accepts : SpTraits → (S → List ℕ → S × Bool) → S → List (List ℕ) → Type 0
  Accepts traits f st [] = Unit {0}
  Accepts traits f st (msg ∷ msgs) =
      (length msg < 256 ^ traits.size_bytes)
      × ((f st msg).1 ≡ true)
      × Accepts traits f (f st msg).0 msgs

  on_received-stops :
      (p : Platform) (socket : Socket) (cb : Callbacks S) → StopsOnError p socket (on_received cb)
  unfolding on_received
  on_received-stops p socket cb st ec count buffer h = rw h

  -- With the default size prefix and more rounds of fuel than bytes that are coming in, the receive
  -- loop ends, whatever the peer sends and whatever the callbacks answer.
  pub start_receive_loop-ends :
      (p : Platform) (socket : Socket) (fuel : ℕ) (cb : Callbacks S) (st : S) (w : socket.World)
      → length (socket.incoming w) < fuel
      → (r : S × socket.World) × (start_receive_loop p sp_default socket fuel cb st w ≡ ok r)
  unfolding start_receive_loop
  start_receive_loop-ends p socket fuel cb st w h =
      async_read_sp_loop-ends p socket (on_received cb) fuel st w (on_received-stops p socket cb) h

  module _ (f : S → List ℕ → S × Bool) (on_death : Option (S → ErrorCode → S)) where
    abbrev pub callbacks : Callbacks S
    callbacks = record { on_handle = some f; on_death = on_death }

    deliver-handle_all :
        (st : S) (msgs : List (List ℕ))
        → deliver (on_received callbacks) st msgs ≡ handle_all f st msgs
    unfolding on_received
    deliver-handle_all st [] = refl
    deliver-handle_all st (msg ∷ msgs) = deliver-handle_all (f st msg).0 msgs

    Accepts-ReadsOn :
        (traits : SpTraits) (st : S) (msgs : List (List ℕ))
        → Accepts traits f st msgs
        → ReadsOn (on_received callbacks) traits st msgs
    unfolding on_received
    Accepts-ReadsOn traits st [] h = tt
    Accepts-ReadsOn traits st (msg ∷ msgs) h =
        (h.0, h.1, Accepts-ReadsOn traits (f st msg).0 msgs h.2)

    -- The messages whose frames have come in are handed to `on_handle` one by one in their order, as
    -- long as it answers true; then the loop goes on behind them. Each message fits the size type, and the
    -- hooks undo one another.
    pub start_receive_loop-delivers :
        (p : Platform) (traits : SpTraits) (socket : Socket) (msgs : List (List ℕ)) (rest : List ℕ)
        (fuel : ℕ) (st : S) (w : socket.World)
        → AreInverse traits
        → Accepts traits f st msgs
        → socket.incoming w ≡ frames p traits msgs ++ rest
        → (w' : socket.World) × (start_receive_loop p traits socket
              (length msgs + fuel)
              callbacks
              st
              w
            ≡ start_receive_loop p traits socket fuel callbacks (handle_all f st msgs) w')
          × (socket.incoming w' ≡ rest)
    unfolding start_receive_loop
    start_receive_loop-delivers p traits socket msgs rest fuel st w inv h e =
        rw (deliver-handle_all st msgs) at (
          async_read_sp_loop-frames p traits socket (on_received callbacks) msgs rest fuel st w inv
            (Accepts-ReadsOn traits st msgs h) e)
