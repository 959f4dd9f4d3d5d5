-- ===== src/Gspp/StreamClient/Transfer.antt =====
-- Two StreamClients at the ends of a connection: what one sends, the other receives.
use re_bacs_env.Prelude.{
  ℕ, ◌+◌, ◌≡◌, ◌∙◌, refl, sym, ap, Bool, Option, List, [], ◌∷◌, ◌++◌, append_assoc, append-nil,
  list_laws, Bool-cases, inl, inr, ◌==◌, ok, ◌>>=◌, All, length,
}
use re_bacs_env.Plakpacs.Platform.{Platform}
use re_bacs_env.Plakpacs.Format.{IsByte}
use re_bacs_env.Bacs.Asio.{Reliable, ErrorCode, Socket, success, failed}
use re_bacs_env.Bacs.{SpTraits, header, body, async_write_sp}
use re_bacs_env.Bacs.Framing.{AreInverse, frame, header-bytes, body-bytes}
use re_bacs_env.Bacs.Loops.{frames}
use re_bacs_env.Gspp.StreamClient.{
  SharedStateBlock, initial, send, after_pop, on_written, written_queue, write_front, run_write,
  run_writes, start_receive_loop,
}
use re_bacs_env.Gspp.StreamClient.Receiving.{
  handle_all, Accepts, callbacks, start_receive_loop-delivers,
}

-- Packets, sent one behind the other.
abbrev pub send_all : List (List ℕ) → SharedStateBlock → SharedStateBlock
send_all [] st = st
send_all (msg ∷ msgs) st = send_all msgs (send msg st)

write_queue-write_front :
    (queue : List (List ℕ)) (st : SharedStateBlock)
    → (write_front queue st).write_queue ≡ st.write_queue
unfolding write_front
write_queue-write_front [] st = refl
write_queue-write_front (front ∷ rest) st = refl

write_queue-send :
    (msg : List ℕ) (st : SharedStateBlock) → (send msg st).write_queue ≡ st.write_queue ++ msg ∷ []
unfolding send
write_queue-send msg st = elim (Bool-cases (length (st.write_queue ++ msg ∷ []) == 1)) [
  | inl e ↦ rw e (
      write_queue-write_front (st.write_queue ++ msg ∷ [])
        (record st { write_queue = st.write_queue ++ msg ∷ [] }))
  | inr e ↦ rw e
]

write_queue-after_pop :
    (rest : List (List ℕ)) (st : SharedStateBlock) → (after_pop rest st).write_queue ≡ rest
unfolding after_pop
write_queue-after_pop rest st = elim (Bool-cases st.shutdown) [
  | inl e ↦ rw e (write_queue-write_front rest _)
  | inr e ↦ rw e (write_queue-write_front rest _)
]

on_written-after_pop :
    (st : SharedStateBlock) (front : List ℕ) (rest : List (List ℕ))
    → st.write_queue ≡ front ∷ rest
    → on_written st ≡ ok (after_pop rest st)
unfolding on_written
on_written-after_pop st front rest e = ap (λ q. written_queue q st) e

pub write_queue-send_all :
    (msgs : List (List ℕ)) (st : SharedStateBlock)
    → (send_all msgs st).write_queue ≡ st.write_queue ++ msgs
write_queue-send_all [] st = simp list_laws
write_queue-send_all (msg ∷ msgs) st =
    simp (write_queue-send_all msgs (send msg st), write_queue-send, list_laws)

module _ (p : Platform) (traits : SpTraits) (socket : Socket) (reliable : Reliable socket) where
  open socket use {World, async_write, written}

  async_write_sp-success {ℓ} :
      {A : Type ℓ} (msg : List ℕ) (handler : ErrorCode → ℕ → World → A) (w : World)
      → All IsByte msg
      → (count : ℕ) × (w' : World) × (async_write_sp p traits socket 1 msg handler w
          ≡ handler success count w')
        × (written w' ≡ written w ++ frame p traits msg)
  unfolding async_write_sp failed frame
  async_write_sp-success msg handler w h =
      let pre = header p traits socket 1 (length msg) in
      let w₁ = (async_write pre w).1 in
      let bytes = body p traits socket 1 msg in
      (
        (async_write bytes w₁).0.1,
        (async_write bytes w₁).1,
        rw (reliable pre w, reliable bytes w₁) refl,
        socket.write_all bytes w₁ (reliable bytes w₁)
            ∙ rw (
              socket.write_all pre w (reliable pre w),
              body-bytes p traits socket msg h,
              header-bytes p traits socket (length msg),
              append_assoc,
            ),
      )

  run_write-frame :
      (st : SharedStateBlock) (w : World) (front : List ℕ) (rest : List (List ℕ))
      → st.write_queue ≡ front ∷ rest
      → All IsByte front
      → (w' : World) × (run_write p traits socket st.write_queue st w ≡ ok (after_pop rest st, w'))
        × (written w' ≡ written w ++ frame p traits front)
  unfolding run_write
  run_write-frame st w front rest e h =
      let (count, w', ends, bytes) =
        async_write_sp-success front (λ ec n u. on_written st >>= λ st'. ok (st', u)) w h in
      (
        w',
        ap (λ q. run_write p traits socket q st w) e
            ∙ ends
            ∙ ap (λ r. r >>= λ st'. ok (st', w')) (on_written-after_pop st front rest e),
        bytes,
      )

  -- When the writes of all queued messages have run, the socket has got their frames in the order of
  -- the queue, and the queue is empty. The messages are bytes, and no write fails.
  pub run_writes-frames :
      (queue : List (List ℕ)) (st : SharedStateBlock) (w : World)
      → st.write_queue ≡ queue
      → All (All IsByte) queue
      → (st' : SharedStateBlock) × (w' : World) × (run_writes p traits socket (length queue) st w
          ≡ ok (st', w'))
        × (written w' ≡ written w ++ frames p traits queue)
        × (st'.write_queue ≡ [])
  unfolding run_writes
  run_writes-frames [] st w e h = (st, w, refl, sym (append-nil (written w)), e)
  run_writes-frames (front ∷ rest) st w e h =
      let (w₁, first, bytes₁) = run_write-frame st w front rest e h.0 in
      let (st', w', others, bytes, done) =
        run_writes-frames rest (after_pop rest st) w₁ (write_queue-after_pop rest st) h.1 in
      (st', w', rw first others, simp (bytes, bytes₁, list_laws), done)

  -- Packets that a new client sends, over a socket on which no write fails, all reach `on_handle` of
  -- the client at the other end, once each and in their order, as soon as the bytes that the one
  -- has written come in at the other: as long as that answers true, each packet fits the size type,
  -- and the hooks undo one another.
  pub send-receive {ℓ} :
      {S : Type ℓ} (f : S → List ℕ → S × Bool) (on_death : Option (S → ErrorCode → S))
      (peer : Socket) (msgs : List (List ℕ)) (rest : List ℕ) (fuel : ℕ) (app : S) (w : World)
      → AreInverse traits
      → All (All IsByte) msgs
      → Accepts traits f app msgs
      → written w ≡ []
      → (st' : SharedStateBlock) × (w' : World) × (run_writes p traits socket
            (length msgs)
            (send_all msgs initial)
            w
          ≡ ok (st', w'))
        × (st'.write_queue ≡ [])
        × ((v : peer.World)
            → peer.incoming v ≡ written w' ++ rest
            → (v' : peer.World) × (start_receive_loop p traits peer
                  (length msgs + fuel)
                  (callbacks f on_death)
                  app
                  v
                ≡ start_receive_loop p traits peer fuel
                    (callbacks f on_death)
                    (handle_all f app msgs)
                    v')
              × (peer.incoming v' ≡ rest))
  send-receive f on_death peer msgs rest fuel app w inv bytes accepts empty =
      let (st', w', ran, out, done) =
        run_writes-frames msgs (send_all msgs initial) w (write_queue-send_all msgs initial)
          bytes in
      (
        st',
        w',
        ran,
        done,
        λ v comes.
            start_receive_loop-delivers f on_death p traits peer msgs rest fuel app v inv accepts
              (comes ∙ ap (λ b. b ++ rest) (out ∙ ap (λ b. b ++ frames p traits msgs) empty)),
      )
