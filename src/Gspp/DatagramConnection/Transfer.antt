-- ===== src/Gspp/DatagramConnection/Transfer.antt =====
-- A packet from a DatagramClient to the handler of the peer's DatagramConnection.
use re_bacs_env.Prelude.{
  ℕ, ◌≤◌, ◌<◌, ◌≡◌, refl, subst, arith, some, ◌%◌, ◌^◌, length-drop, List, [], ◌∷◌, ◌++◌,
  append_assoc, Exception, Outcome, ok, ◌>>=◌, length, length-append, drop,
}
use re_bacs_env.Plakpacs.Platform.{Platform}
use re_bacs_env.Plakpacs.Types.{Ty, El, initial}
use re_bacs_env.Plakpacs.Streams.{WriteStream, size_mod}
use re_bacs_env.Plakpacs.Serializer.{write, read}
use re_bacs_env.Plakpacs.Format.{encode, Fits}
use re_bacs_env.Plakpacs.Format.Writing.{write-encode}
use re_bacs_env.Plakpacs.Format.Reading.{between}
use re_bacs_env.Plakpacs.Format.RoundTrip.{read_type}
use re_bacs_env.Bacs.Asio.{success, failed}
use re_bacs_env.Bacs.{SpTraits}
use re_bacs_env.Bacs.Framing.{frame}
use re_bacs_env.Gspp.DatagramConnection.{
  SharedStateBlock, DatagramClient, invoke, fill_buffer, on_receive, send,
}

module _ {ℓ κ} {Endpoint : Type ℓ} {S : Type κ} (p : Platform) (traits : SpTraits) (bad : Exception)
    (on_handle : S → Endpoint → List ℕ → ℕ → Outcome S) where
  -- Sending a packet's value adds one datagram. If that arrives whole, the handler at the peer is
  -- called with the number of its bytes and a buffer of the old size, out of which the packet's type
  -- is read behind the size, with just these bytes, whatever earlier datagrams left in the buffer.
  -- The value fits its type, the datagram fits the buffer, and the buffer's size is below 2^64.
  pub sent-received :
      (t : Ty) (v : El t) (client : DatagramClient Endpoint) (from : Endpoint)
      (st peer : SharedStateBlock Endpoint) (app : S)
      → Fits t v
      → length (frame p traits (encode p t v)) ≤ length peer.recv_buffer
      → length peer.recv_buffer < size_mod
      → (ws : WriteStream) × (datagram buffer : List ℕ) × (write p t v (record { bytes = [] })
          ≡ ok ws)
        × (send p traits client ws.bytes st
            ≡ ok (record st { sent = st.sent ++ (client.endpoint, datagram) ∷ [] }))
        × (on_receive bad
              (some on_handle)
              (record { error = success; ep = from; datagram = datagram })
              (app, peer)
            ≡ (on_handle app from buffer (length datagram) >>= λ app'.
                ok (app', record peer { recv_buffer = buffer })))
        × (read p t (initial t) (record { bytes = buffer; position = traits.size_bytes })
            ≡ ok (v, record { bytes = buffer; position = length datagram }))
        × (length buffer ≡ length peer.recv_buffer)
  unfolding send on_receive fill_buffer invoke failed frame between
  sent-received t v client from st peer app fits whole small =
      let enc = encode p t v in
      let n = traits.on_out (length enc % 256 ^ traits.size_bytes) in
      let size = p.bytes_of traits.size_bytes n in
      let old = peer.recv_buffer in
      let behind = drop (length (size ++ enc)) old in
      let long₁ = length-append size enc in
      let long₂ = length-append enc behind in
      let long₃ = length-append (size ++ enc) behind in
      let dropped = length-drop (length (size ++ enc)) old in
      (
        record { bytes = enc },
        size ++ enc,
        (size ++ enc) ++ behind,
        write-encode p t v (record { bytes = [] }),
        refl,
        refl,
        subst
            (λ k.
              read p t (initial t) (record { bytes = (size ++ enc) ++ behind; position = k })
              ≡ ok (v, record { bytes = (size ++ enc) ++ behind; position = length (size ++ enc) }))
            (p.length-bytes_of traits.size_bytes n)
            (rw append_assoc (
              rw append_assoc at (
                read_type p t v fits size behind
                  (omega (arith, whole, small, long₁, long₂, dropped))))),
        omega (arith, whole, long₃, dropped),
      )
