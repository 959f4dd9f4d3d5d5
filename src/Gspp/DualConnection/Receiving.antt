-- ===== src/Gspp/DualConnection/Receiving.antt =====
-- DualConnection's receive loop, over those of StreamClient and bacs.
use re_bacs_env.Prelude.{
  ℕ, suc, ◌+◌, ◌^◌, ◌<◌, ◌≡◌, ◌∙◌, refl, sym, ap, Bool, true, false, some, List, [], ◌∷◌, ◌++◌,
  String, ok, length, All,
}
use re_bacs_env.Plakpacs.Platform.{Platform}
use re_bacs_env.Bacs.Asio.{ErrorCode, Socket, success, failed}
use re_bacs_env.Bacs.{SpTraits, async_read_sp_loop}
use re_bacs_env.Bacs.Framing.{AreInverse, frame}
use re_bacs_env.Bacs.Loops.{
  frames, deliver, ReadsOn, async_read_sp_loop-frames, async_read_sp_loop-last,
}
use re_bacs_env.Gspp.StreamClient
use re_bacs_env.Gspp.StreamClient.{SharedStateBlock, on_received}
use re_bacs_env.Gspp.PacketHandlers.{HandlerResult}
use re_bacs_env.Gspp.DualConnection.{
  DualConnection, Attempt, on_packet, on_stream_packet, stream_callbacks, start_receive_loop,
  receive_from,
}
use re_bacs_env.Gspp.DualConnection.Disconnect.{Handler, Callback}

module _ {ℓ κ} {D : Type ℓ} {A : Type κ} (handle : Handler D A)
    (on_handle : Callback D A HandlerResult) (on_handle_exception : Callback D A String) where
  -- Messages behind each of which the connection reads on, and the connection before and behind.
  pub data Continues : DualConnection D A → List (List ℕ) → DualConnection D A → Type (ℓ ⊔ κ) where
    no_more : {c : DualConnection D A} → Continues c [] c
    reads_on :
        {c c₁ c' : DualConnection D A} (msg : List ℕ) {msgs : List (List ℕ)}
        → on_packet handle on_handle on_handle_exception c msg ≡ (ok true, c₁)
        → Continues c₁ msgs c'
        → Continues c (msg ∷ msgs) c'

  -- The loop's handler.
  abbrev pub receives :
      Callback D A ErrorCode
      → Attempt D A (Unit {0})
      → ErrorCode
      → ℕ
      → List ℕ
      → Attempt D A (Unit {0}) × Bool
  receives on_death = on_received (stream_callbacks handle on_handle on_handle_exception on_death)

  receives-answer :
      (on_death : Callback D A ErrorCode) (c c' : DualConnection D A) (msg : List ℕ) (more : Bool)
      → on_packet handle on_handle on_handle_exception c msg ≡ (ok more, c')
      → receives on_death (ok tt, c) success (length msg) msg ≡ ((ok tt, c'), more)
  unfolding on_received on_stream_packet failed
  receives-answer on_death c c' msg more e = rw e

  Continues-ReadsOn :
      (traits : SpTraits) (on_death : Callback D A ErrorCode) {c c' : DualConnection D A}
      {msgs : List (List ℕ)}
      → Continues c msgs c'
      → All (λ msg. length msg < 256 ^ traits.size_bytes) msgs
      → ReadsOn (receives on_death) traits (ok tt, c) msgs
        × (deliver (receives on_death) (ok tt, c) msgs ≡ (ok tt, c'))
  Continues-ReadsOn traits on_death no_more h = (tt, refl)
  Continues-ReadsOn traits on_death (reads_on {c = c} {c₁ = c₁} msg e rest) h =
      let goes = receives-answer on_death c c₁ msg true e in
      let (others, ends) = Continues-ReadsOn traits on_death rest h.1 in
      ((h.0, ap (λ r. r.1) goes, rw goes others), rw goes ends)

  module _ (p : Platform) (traits : SpTraits) (socket : Socket) where
    open socket use {World, incoming}

    pub with_client :
        (on_death : Callback D A ErrorCode) (c : DualConnection D A) (client : SharedStateBlock)
        (fuel : ℕ) (w : World)
        → c.stream ≡ some client
        → start_receive_loop handle on_handle on_handle_exception p traits socket fuel on_death c w
          ≡ async_read_sp_loop p traits socket fuel (receives on_death) (ok tt, c) w
    unfolding start_receive_loop StreamClient.start_receive_loop
    with_client on_death c client fuel w has =
        ap
          (λ stream.
            receive_from handle on_handle on_handle_exception p traits socket fuel on_death stream c
              w)
          has

    -- The messages whose frames have come in go through `on_packet` one by one, as long as it
    -- answers true, and the loop goes on behind them. Each fits the size type, the hooks undo one
    -- another, and the connection has a stream client.
    pub start_receive_loop-reads_on :
        (on_death : Callback D A ErrorCode) (c c' : DualConnection D A)
        (client client' : SharedStateBlock) (msgs : List (List ℕ)) (rest : List ℕ) (fuel : ℕ)
        (w : World)
        → AreInverse traits
        → Continues c msgs c'
        → All (λ msg. length msg < 256 ^ traits.size_bytes) msgs
        → c.stream ≡ some client
        → c'.stream ≡ some client'
        → incoming w ≡ frames p traits msgs ++ rest
        → (w' : World) × (start_receive_loop handle on_handle on_handle_exception p traits socket
              (length msgs + fuel)
              on_death
              c
              w
            ≡ start_receive_loop handle on_handle on_handle_exception p traits socket fuel on_death
                c' w')
          × (incoming w' ≡ rest)
    start_receive_loop-reads_on on_death c c' client client' msgs rest fuel w inv run fits has has'
          e =
        let (reads, ends) = Continues-ReadsOn traits on_death run fits in
        let (w', looped, left) =
          async_read_sp_loop-frames p traits socket (receives on_death) msgs rest fuel (ok tt, c) w
            inv reads e in
        (
          w',
          with_client on_death c client (length msgs + fuel) w has
              ∙ looped
              ∙ ap (λ st. async_read_sp_loop p traits socket fuel (receives on_death) st w') ends
              ∙ sym (with_client on_death c' client' fuel w' has'),
          left,
        )

    -- The loop ends at the first message for which `on_packet` answers false: the connection is as
    -- that call leaves it, and no byte behind that message is read.
    pub start_receive_loop-disconnects :
        (on_death : Callback D A ErrorCode) (c c₁ c' : DualConnection D A)
        (client : SharedStateBlock) (msgs : List (List ℕ)) (last rest : List ℕ) (fuel : ℕ)
        (w : World)
        → AreInverse traits
        → Continues c msgs c₁
        → All (λ msg. length msg < 256 ^ traits.size_bytes) msgs
        → on_packet handle on_handle on_handle_exception c₁ last ≡ (ok false, c')
        → length last < 256 ^ traits.size_bytes
        → c.stream ≡ some client
        → incoming w ≡ frames p traits msgs ++ (frame p traits last ++ rest)
        → (w' : World) × (start_receive_loop handle on_handle on_handle_exception p traits socket
              (length msgs + suc fuel)
              on_death
              c
              w
            ≡ ok ((ok tt, c'), w'))
          × (incoming w' ≡ rest)
    start_receive_loop-disconnects on_death c c₁ c' client msgs last rest fuel w inv run fits stops
          fits' has e =
        let (reads, ends) = Continues-ReadsOn traits on_death run fits in
        let (w₁, looped, left) =
          async_read_sp_loop-frames p traits socket (receives on_death) msgs
            (frame p traits last ++ rest) (suc fuel) (ok tt, c) w inv reads e in
        let answers = receives-answer on_death c₁ c' last false stops in
        let (w', ended, left') =
          async_read_sp_loop-last p traits socket (receives on_death) last rest fuel (ok tt, c₁) w₁
            inv fits' (ap (λ r. r.1) answers) left in
        (
          w',
          with_client on_death c client (length msgs + suc fuel) w has
              ∙ looped
              ∙ ap (λ st. async_read_sp_loop p traits socket (suc fuel) (receives on_death) st w₁)
                  ends
              ∙ ended
              ∙ ap (λ r. ok (r.0, w')) answers,
          left',
        )
