-- ===== src/Gspp/DatagramConnection/Looping.antt =====
-- DatagramConnection's receive loop on its socket: it has no end.
use re_bacs_env.Prelude.{
  ℕ, zero, suc, ◌≡◌, ◌≢◌, ◌∙◌, ap, refl, sym, Option, List, [], ◌∷◌, Exception, Outcome, ok,
  diverges, ◌>>=◌, >>=-eq-ok, bind_congr, bind_assoc,
}
use re_bacs_env.Gspp.DatagramConnection.{
  SharedStateBlock, Received, DatagramSocket, on_receive, recv_loop, recv_loop_async,
}
use re_bacs_env.Gspp.DatagramConnection.Datagrams.{on_receive-failed}

module _ {ℓ κ} {Endpoint : Type ℓ} {S : Type κ} (socket : DatagramSocket Endpoint) (bad : Exception)
    (on_handle : Option (S → Endpoint → List ℕ → ℕ → Outcome S)) where
  open socket use {World, async_receive_from, IsClosed}

  -- What a number of receives on the socket give.
  abbrev pub receives : ℕ → World → List (Received Endpoint)
  receives zero w = []
  receives (suc n) w = (async_receive_from w).0 ∷ receives n (async_receive_from w).1

  as_completions :
      (n : ℕ) (s : S × SharedStateBlock Endpoint) (w : World)
      → recv_loop_async socket bad on_handle n s w
        ≡ (recv_loop bad on_handle (receives n w) s >>= λ s'. diverges)
  unfolding recv_loop_async recv_loop
  as_completions zero s w = refl
  as_completions (suc n) s w =
      let (r, w') = async_receive_from w in
      bind_congr (on_receive bad on_handle r s) (λ s'. recv_loop_async socket bad on_handle n s' w')
        (λ s'. recv_loop bad on_handle (receives n w') s' >>= λ s''. diverges)
        (λ s'. as_completions n s' w')
      ∙ sym (
          bind_assoc (on_receive bad on_handle r s) (recv_loop bad on_handle (receives n w'))
            (λ s''. diverges))

  on_closed :
      (n : ℕ) (s : S × SharedStateBlock Endpoint) (w : World)
      → IsClosed w
      → recv_loop bad on_handle (receives n w) s ≡ ok s
  unfolding recv_loop
  on_closed zero s w h = refl
  on_closed (suc n) s w h =
      let (fails, empty, still) = socket.receive-IsClosed w h in
      rw (on_receive-failed bad on_handle (async_receive_from w).0 s fails empty)
        (on_closed n s (async_receive_from w).1 still)

  -- For any number of rounds the loop hands over what that many receives on the socket give, in their
  -- order, and is not at its end then: it never returns. On a closed socket, as the destructor
  -- leaves it, the rounds change nothing and throw nothing, and go on without end.
  pub recv_loop_async-endless :
      (n : ℕ) (s : S × SharedStateBlock Endpoint) (w closed : World)
      (r : (S × SharedStateBlock Endpoint) × World)
      → IsClosed closed
      → (recv_loop_async socket bad on_handle n s w
          ≡ (recv_loop bad on_handle (receives n w) s >>= λ s'. diverges))
        × (recv_loop_async socket bad on_handle n s w ≢ ok r)
        × (recv_loop bad on_handle (receives n closed) s ≡ ok s)
        × (recv_loop_async socket bad on_handle n s closed ≡ diverges)
  recv_loop_async-endless n s w closed r shut =
      let completions = recv_loop bad on_handle (receives n w) s in
      let rounds = as_completions n s w in
      (
        rounds,
        λ e. let (s', _, never) = >>=-eq-ok completions (λ s''. diverges) (sym rounds ∙ e) in cc,
        on_closed n s closed shut,
        as_completions n s closed ∙ ap (λ m. m >>= λ s'. diverges) (on_closed n s closed shut),
      )
