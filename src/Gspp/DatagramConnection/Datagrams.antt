-- ===== src/Gspp/DatagramConnection/Datagrams.antt =====
-- DatagramConnection: what is sent, and which datagrams reach the handler.
use re_bacs_env.Prelude.{
  ℕ, ◌≡◌, refl, ap, true, false, inl, inr, Option, none, List, [], ◌∷◌, ◌++◌, Exception, Outcome,
  ok, throws, ◌>>=◌, bind_congr, list_laws, if◌then◌else◌, Bool-cases, All,
}
use re_bacs_env.Plakpacs.Platform.{Platform}
use re_bacs_env.Bacs.Asio.{failed}
use re_bacs_env.Bacs.{SpTraits}
use re_bacs_env.Bacs.Framing.{frame}
use re_bacs_env.Gspp.DatagramConnection.{
  SharedStateBlock, Received, DatagramClient, invoke, fill_buffer, on_receive, recv_loop, send,
}

module _ {ℓ} {Endpoint : Type ℓ} where
  -- Packets, each sent by the client that stands with it.
  abbrev pub send_all :
      Platform
      → SpTraits
      → List (DatagramClient Endpoint × List ℕ)
      → SharedStateBlock Endpoint
      → Outcome (SharedStateBlock Endpoint)
  send_all p traits [] st = ok st
  send_all p traits ((client, m) ∷ ms) st = do
    st' ← send p traits client m st
    send_all p traits ms st'

  abbrev pub datagrams :
      Platform → SpTraits → List (DatagramClient Endpoint × List ℕ) → List (Endpoint × List ℕ)
  datagrams p traits [] = []
  datagrams p traits ((client, m) ∷ ms) =
      (client.endpoint, frame p traits m) ∷ datagrams p traits ms

  -- Packets that several clients send through one connection go out in their order, each as one
  -- datagram to its client's endpoint, with the frame that a stream connection would write.
  pub send_all-datagrams :
      (p : Platform) (traits : SpTraits) (ms : List (DatagramClient Endpoint × List ℕ))
      (st : SharedStateBlock Endpoint)
      → send_all p traits ms st ≡ ok (record st { sent = st.sent ++ datagrams p traits ms })
  unfolding send frame
  send_all-datagrams p traits [] st = simp list_laws
  send_all-datagrams p traits ((client, m) ∷ ms) st = simp (
    send_all-datagrams p traits ms
        (record st { sent = st.sent ++ (client.endpoint, frame p traits m) ∷ [] }),
    list_laws,
  )

  -- The receives without error.
  abbrev pub good : List (Received Endpoint) → List (Received Endpoint)
  good [] = []
  good (r ∷ rs) = if failed r.error then good rs else r ∷ good rs

  -- A receive that failed has put no bytes in the buffer.
  abbrev pub FailsEmpty : Received Endpoint → Type 0
  FailsEmpty r = failed r.error ≡ true → r.datagram ≡ []

  pub on_receive-failed {κ} :
      {S : Type κ} (bad : Exception) (on_handle : Option (S → Endpoint → List ℕ → ℕ → Outcome S))
      (r : Received Endpoint) (s : S × SharedStateBlock Endpoint)
      → failed r.error ≡ true
      → r.datagram ≡ []
      → on_receive bad on_handle r s ≡ ok s
  unfolding on_receive fill_buffer
  on_receive-failed bad on_handle r s e none_read =
      rw e (ap (λ (d : List ℕ). ok (s.0, fill_buffer d s.1)) none_read)

  -- Receives that failed and put no bytes in the buffer are passed over: the handler's work and the
  -- buffer are those of the others alone, and the loop goes on behind each failure.
  pub recv_loop-good {κ} :
      {S : Type κ} (bad : Exception) (on_handle : Option (S → Endpoint → List ℕ → ℕ → Outcome S))
      (rs : List (Received Endpoint)) (s : S × SharedStateBlock Endpoint)
      → All FailsEmpty rs
      → recv_loop bad on_handle rs s ≡ recv_loop bad on_handle (good rs) s
  unfolding recv_loop
  recv_loop-good bad on_handle [] s h = refl
  recv_loop-good bad on_handle (r ∷ rs) s h = elim (Bool-cases (failed r.error)) [
    | inl e ↦
        rw (e, on_receive-failed bad on_handle r s e (h.0 e))
          (recv_loop-good bad on_handle rs s h.1)
    | inr e ↦ rw e (
        bind_congr (on_receive bad on_handle r s) (recv_loop bad on_handle rs)
          (recv_loop bad on_handle (good rs)) (λ s'. recv_loop-good bad on_handle rs s' h.1))
  ]

  -- A connection that is made with the default, empty handler throws at the first datagram.
  pub recv_loop-default {κ} :
      {S : Type κ} (bad : Exception) (failures : List (Received Endpoint)) (r : Received Endpoint)
      (later : List (Received Endpoint)) (s : S × SharedStateBlock Endpoint)
      → All (λ q. failed q.error ≡ true) failures
      → failed r.error ≡ false
      → recv_loop bad none (failures ++ (r ∷ later)) s ≡ throws bad
  unfolding recv_loop on_receive invoke fill_buffer
  recv_loop-default bad [] r later s h e = rw e
  recv_loop-default bad (q ∷ failures) r later s h e =
      rw h.0 (recv_loop-default bad failures r later (s.0, fill_buffer q.datagram s.1) h.1 e)
