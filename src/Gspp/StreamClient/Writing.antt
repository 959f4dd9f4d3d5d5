-- ===== src/Gspp/StreamClient/Writing.antt =====
-- StreamClient's write queue under any interleaving of sends, closes and completed writes.
pub mod Invariant
use re_bacs_env.Prelude.{
  ℕ, zero, suc, ◌<◌, ◌≡◌, ◌∙◌, refl, sym, ap, arith, Bool, true, false, List, [], ◌∷◌, ◌++◌, map,
  append_assoc, append-nil, list_laws, Outcome, ok, ◌>>=◌, length,
}
use re_bacs_env.Gspp.StreamClient.{
  SharedStateBlock, initial, send, close_socket, destroy_client, after_pop, on_written,
}
use re_bacs_env.Gspp.StreamClient.Writing.Invariant.{
  Inv, behind, block, busy, messages, messages-next, close-Inv, send-Inv, written-Inv,
}

-- What can happen to a client, with the list of the messages sent so far. A write completes only
-- while one is pending.
pub data Run : List (List ℕ) → SharedStateBlock → Type 0 where
  start : Run [] initial
  sends :
      {sent : List (List ℕ)} {st : SharedStateBlock} (bytes : List ℕ)
      → Run sent st
      → Run (sent ++ bytes ∷ []) (send bytes st)
  closes : {sent : List (List ℕ)} {st : SharedStateBlock} → Run sent st → Run sent (close_socket st)
  completes :
      {sent : List (List ℕ)} {st : SharedStateBlock} (st' : SharedStateBlock)
      → 0 < st.pending
      → on_written st ≡ ok st'
      → Run sent st
      → Run sent st'

-- Whatever sends, closes and completions come, in whatever order: one write at a time is under
-- way, the messages are submitted in the order in which they were sent, each once, and as long as
-- the socket is open, each was submitted to the open socket.
pub Run-Inv : {sent : List (List ℕ)} {st : SharedStateBlock} → Run sent st → Inv sent st
Run-Inv start = record { one_write = refl; in_order = refl; while_open = λ e. tt }
Run-Inv (sends {sent = sent} {st = st} bytes r) =
    send-Inv sent bytes st.socket_open st.write_queue st.shutdown st.submitted st.pending
      (Run-Inv r)
Run-Inv (closes {sent = sent} {st = st} r) =
    close-Inv sent st.socket_open st.write_queue st.shutdown st.submitted st.pending (Run-Inv r)
Run-Inv (completes {sent = sent} {st = st} st' busy e r) =
    written-Inv sent st.socket_open st.write_queue st.shutdown st.submitted st.pending st' e
      (Run-Inv r)

pop_ready :
    (o : Bool) (queue : List (List ℕ)) (sd : Bool) (sub : List (List ℕ × Bool)) (pd : ℕ)
    → pd ≡ busy queue
    → 0 < pd
    → (st' : SharedStateBlock) × (on_written (block o queue sd sub pd) ≡ ok st')
unfolding on_written
pop_ready o [] sd sub pd e h = absurd (omega arith)
pop_ready o (front ∷ rest) sd sub pd e h = (after_pop rest (block o (front ∷ rest) sd sub pd), refl)

-- The handler of a pending write never pops from an empty queue: it returns.
pub on_written-returns :
    {sent : List (List ℕ)} {st : SharedStateBlock}
    → Run sent st
    → 0 < st.pending
    → (st' : SharedStateBlock) × (on_written st ≡ ok st')
on_written-returns {st = st} r h =
    pop_ready st.socket_open st.write_queue st.shutdown st.submitted st.pending
      (Run-Inv r).one_write h

-- A number of completions, one behind the other.
abbrev pub drain : ℕ → SharedStateBlock → Outcome SharedStateBlock
drain zero st = ok st
drain (suc n) st = on_written st >>= drain n

drain-shutdown :
    (o : Bool) (front : List ℕ) (rest : List (List ℕ)) (sub : List (List ℕ × Bool))
    → drain (length (front ∷ rest)) (block o (front ∷ rest) true sub 1)
      ≡ ok (block false [] true (sub ++ map (λ m. (m, false)) rest) 0)
unfolding on_written
drain-shutdown o front [] sub = simp list_laws
drain-shutdown o front (next ∷ rest) sub =
    simp (drain-shutdown false next rest (sub ++ (next, false) ∷ []), list_laws)

close_busy :
    (o : Bool) (queue : List (List ℕ)) (sd : Bool) (sub : List (List ℕ × Bool)) (pd : ℕ)
    (front : List ℕ) (rest : List (List ℕ))
    → queue ≡ front ∷ rest
    → pd ≡ 1
    → close_socket (block o queue sd sub pd) ≡ block o (front ∷ rest) true sub 1
unfolding close_socket
close_busy o [] sd sub pd front rest e h = cc
close_busy o (x ∷ xs) sd sub pd front rest e h = λ i. block o (e i) true sub (h i)

-- `CloseSocket` while messages wait behind the one that is being written: once all writes have
-- completed the socket is closed, and each of the waiting messages was submitted to the closed
-- socket.
pub close_socket-drops :
    {sent : List (List ℕ)} {st : SharedStateBlock} (front : List ℕ) (rest : List (List ℕ))
    → Run sent st
    → st.write_queue ≡ front ∷ rest
    → (st' : SharedStateBlock) × (drain (length (front ∷ rest)) (close_socket st) ≡ ok st')
      × (st'.submitted ≡ st.submitted ++ map (λ m. (m, false)) rest)
      × (st'.socket_open ≡ false)
      × (st'.write_queue ≡ [])
close_socket-drops {st = st} front rest r e = (
  block false [] true (st.submitted ++ map (λ m. (m, false)) rest) 0,
  rw
      (close_busy st.socket_open st.write_queue st.shutdown st.submitted st.pending front rest e
        ((Run-Inv r).one_write ∙ ap busy e))
      (drain-shutdown st.socket_open front rest st.submitted),
  refl,
  refl,
  refl,
)

-- The rest of a queue behind the write that is under way.
drain-behind :
    (o : Bool) (front : List ℕ) (rest : List (List ℕ)) (sd : Bool) (sub : List (List ℕ × Bool))
    → (o' : Bool) × (sub' : List (List ℕ × Bool)) × (drain
          (length (front ∷ rest))
          (block o (front ∷ rest) sd sub 1)
        ≡ ok (block o' [] sd sub' 0))
      × (messages sub' ≡ messages sub ++ rest)
      × (sd ≡ false → o' ≡ o)
unfolding on_written
drain-behind o front [] true sub = (false, sub, refl, sym (append-nil (messages sub)), λ e. cc)
drain-behind o front [] false sub = (o, sub, refl, sym (append-nil (messages sub)), λ e. refl)
drain-behind o front (next ∷ rest) true sub =
    let (o', sub', drained, all, open_) =
      drain-behind false next rest true (sub ++ (next, false) ∷ []) in
    (o', sub', drained, all ∙ messages-next sub next false rest, λ e. cc)
drain-behind o front (next ∷ rest) false sub =
    let (o', sub', drained, all, same) = drain-behind o next rest false (sub ++ (next, o) ∷ []) in
    (o', sub', drained, all ∙ messages-next sub next o rest, same)

drain-queue :
    (o : Bool) (queue : List (List ℕ)) (sd : Bool) (sub : List (List ℕ × Bool)) (pd : ℕ)
    → pd ≡ busy queue
    → (o' : Bool) × (sub' : List (List ℕ × Bool)) × (drain (length queue) (block o queue sd sub pd)
        ≡ ok (block o' [] sd sub' 0))
      × (messages sub' ≡ messages sub ++ behind queue)
      × (sd ≡ false → o' ≡ o)
drain-queue o [] sd sub pd e =
    (o, sub, λ i. ok (block o [] sd sub (e i)), sym (append-nil (messages sub)), λ s. refl)
drain-queue o (front ∷ rest) sd sub pd e =
    let (o', sub', drained, all, same) = drain-behind o front rest sd sub in
    (
      o',
      sub',
      (λ i. drain (length (front ∷ rest)) (block o (front ∷ rest) sd sub (e i))) ∙ drained,
      all,
      same,
    )

closes-queue :
    (o : Bool) (queue : List (List ℕ)) (sd : Bool) (sub : List (List ℕ × Bool)) (pd : ℕ)
    → pd ≡ busy queue
    → (st' : SharedStateBlock) × (drain (length queue) (close_socket (block o queue sd sub pd))
        ≡ ok st')
      × (st'.socket_open ≡ false)
      × (st'.write_queue ≡ [])
unfolding close_socket
closes-queue o [] sd sub pd e = (block false [] sd sub pd, refl, refl, refl)
closes-queue o (front ∷ rest) sd sub pd e = (
  block false [] true (sub ++ map (λ m. (m, false)) rest) 0,
  rw (close_busy o (front ∷ rest) sd sub pd front rest refl e) (drain-shutdown o front rest sub),
  refl,
  refl,
)

-- Whatever has happened to a client, as many completed writes as it has messages in its queue
-- empty the queue: every message that was sent has then been submitted, once and in order, no
-- write is under way, and without a call of `CloseSocket` the socket is as open as before. Behind
-- the client's destructor the same completions empty the queue and close the socket.
pub drain-all :
    {sent : List (List ℕ)} {st : SharedStateBlock}
    → Run sent st
    → (st' : SharedStateBlock) × (drain (length st.write_queue) st ≡ ok st')
      × (messages st'.submitted ≡ sent)
      × (st'.write_queue ≡ [])
      × (st'.pending ≡ 0)
      × (st.shutdown ≡ false → st'.socket_open ≡ st.socket_open)
      × ((last : SharedStateBlock) × (drain (length st.write_queue) (destroy_client st) ≡ ok last)
          × (last.socket_open ≡ false)
          × (last.write_queue ≡ []))
unfolding destroy_client
drain-all {st = st} r =
    let (o', sub', drained, all, same) =
      drain-queue st.socket_open st.write_queue st.shutdown st.submitted st.pending
        (Run-Inv r).one_write in
    (
      block o' [] st.shutdown sub' 0,
      drained,
      all ∙ (Run-Inv r).in_order,
      refl,
      refl,
      same,
      closes-queue st.socket_open st.write_queue st.shutdown st.submitted st.pending
          (Run-Inv r).one_write,
    )
