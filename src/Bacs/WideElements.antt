-- ===== src/Bacs/WideElements.antt =====
-- bacs::async_write_sp on containers with elements of more than one byte.
use re_bacs_env.Prelude.{
  ℕ, ◌+◌, ◌*◌, ◌^◌, ◌<◌, ◌≡◌, ◌∙◌, refl, ap, subst, arith, true, inl, inr, List, ◌++◌, append_assoc,
  ok, length, length-append, take, length-take_of_le,
}
use native.Mathlib.Nat.{mod-eq_of_lt}
use re_bacs_env.Plakpacs.Platform.{Platform}
use re_bacs_env.Bacs.Asio.{ErrorCode, Socket, success, failed}
use re_bacs_env.Bacs.{
  SpTraits, memory, shared_buffer, header, body, async_write_sp, async_read_sp, read_body,
}
use re_bacs_env.Bacs.Framing.{
  AreInverse, ErrorCode-cases, frame, length-memory, sent, read_next, async_read_sp-frame,
}

-- The size in bytes, and as many bytes as there are elements.
abbrev pub short_frame : Platform → SpTraits → ℕ → List ℕ → List ℕ
short_frame p traits width container =
    p.bytes_of traits.size_bytes (traits.on_out (length container * width))
    ++ take (length container) (memory p width container)

module _ (p : Platform) (traits : SpTraits) (socket peer : Socket) where
  open socket use {World, async_write, written}

  writes_short :
      (width : ℕ) (container : List ℕ) (w : World)
      → length container * width < 256 ^ traits.size_bytes
      → (async_write_sp p traits socket width container (sent p traits socket) w).0 ≡ success
      → written (async_write_sp p traits socket width container (sent p traits socket) w).1
        ≡ written w ++ short_frame p traits width container
  unfolding async_write_sp header body failed
  writes_short width container w fits e = elim (ErrorCode-cases (async_write pre w).0.0) [
    | inr (bad, never) ↦ absurd (never (rw bad at e))
    | inl good ↦
        let w' = (async_write pre w).1 in
        let e' : (async_write (body p traits socket width container) w').0.0 ≡ success =
          rw good at e in
        rw good (
          socket.write_all (body p traits socket width container) w' e'
          ∙ rw (
            socket.write_all pre w good,
            ap (λ (k : ℕ). p.bytes_of traits.size_bytes (traits.on_out k)) (mod-eq_of_lt fits),
            append_assoc,
          ))
  ]
    where
      pre : List ℕ
      pre = header p traits socket width (length container)

  reads_short {ℓ} :
      {A : Type ℓ} (size n : ℕ) (front : List ℕ) (handler : ErrorCode → ℕ → List ℕ → peer.World → A)
      (v : peer.World)
      → size < 256 ^ traits.size_bytes
      → traits.on_in size ≡ ok n
      → peer.incoming v ≡ p.bytes_of traits.size_bytes size ++ front
      → length front < n
      → (ec : ErrorCode) × (count : ℕ) × (buffer : List ℕ) × (v' : peer.World) × (async_read_sp p
            traits peer handler v
          ≡ ok (handler ec count buffer v'))
        × (failed ec ≡ true)
  unfolding async_read_sp read_body
  reads_short size n front handler v fits known comes few =
      let (v₁, read, left) =
        subst
          (λ (k : ℕ).
            (v₁ : peer.World) × (peer.async_read k v
              ≡ ((success, p.bytes_of traits.size_bytes size), v₁))
            × (peer.incoming v₁ ≡ front))
          (p.length-bytes_of traits.size_bytes size)
          (read_next p traits peer (p.bytes_of traits.size_bytes size) front v comes) in
      elim (ErrorCode-cases (peer.async_read n v₁).0.0) [
        | inr (bad, never) ↦ (
          (peer.async_read n v₁).0.0,
          length (peer.async_read n v₁).0.1,
          shared_buffer p n (peer.async_read n v₁).0.1,
          (peer.async_read n v₁).1,
          rw (read, p.value_of-bytes_of traits.size_bytes size fits, known) refl,
          bad,
        )
        | inl good ↦
            let (len, split) = peer.read_all n v₁ good in
            absurd (
              omega (
                arith,
                few,
                len,
                ap length left,
                ap length split,
                length-append (peer.async_read n v₁).0.1 (peer.incoming (peer.async_read n v₁).1),
              ))
      ]

  -- Of a container with elements of more than one byte, a write that succeeds has sent the size in
  -- bytes and only as many bytes as there are elements. A peer to which fewer than the missing
  -- bytes come behind these does not get the message: its read fails. A peer to which more comes
  -- gets, without an error, a message that goes on with the bytes behind: those of the next frame.
  -- The hooks undo one another, and the size fits size_type.
  pub async_write_sp-short {ℓ} :
      {A : Type ℓ} (width : ℕ) (container few next rest : List ℕ) (w : World) (u v : peer.World)
      (handler : ErrorCode → ℕ → List ℕ → peer.World → A)
      → AreInverse traits
      → 1 < width
      → length container * width < 256 ^ traits.size_bytes
      → (async_write_sp p traits socket width container (sent p traits socket) w).0 ≡ success
      → peer.incoming u ≡ short_frame p traits width container ++ few
      → length container + length few < length container * width
      → peer.incoming v ≡ short_frame p traits width container ++ (next ++ rest)
      → length container + length next ≡ length container * width
      → (written (async_write_sp p traits socket width container (sent p traits socket) w).1
          ≡ written w ++ short_frame p traits width container)
        × ((ec : ErrorCode) × (count : ℕ) × (buffer : List ℕ) × (u' : peer.World) × (async_read_sp p
                traits peer handler u
              ≡ ok (handler ec count buffer u'))
            × (failed ec ≡ true))
        × ((v' : peer.World) × (async_read_sp p traits peer handler v
              ≡ ok (
                  handler success
                    (length container * width)
                    (take (length container) (memory p width container) ++ next)
                    v'))
            × (peer.incoming v' ≡ rest))
  unfolding frame
  async_write_sp-short width container few next rest w u v handler inv wide fits good comes_few
        missing comes enough =
      let size = length container * width in
      let cut = take (length container) (memory p width container) in
      let cut_length : length cut ≡ length container =
        length-take_of_le (length container) (memory p width container)
          (rw (length-memory p width container) (grind arith)) in
      let whole : length (cut ++ next) ≡ size =
        omega (arith, length-append cut next, cut_length, enough) in
      (
        writes_short width container w fits good,
        reads_short (traits.on_out size) size (cut ++ few) handler u (inv.out_range size fits)
            (inv.in_out size fits)
            (comes_few ∙ append_assoc (p.bytes_of traits.size_bytes (traits.on_out size)) cut few)
            (omega (arith, length-append cut few, cut_length, missing)),
        rw whole at (
            async_read_sp-frame p traits peer (cut ++ next) rest handler v inv (rw whole fits) (
              comes
              ∙ rw
                  (
                    whole,
                    mod-eq_of_lt fits,
                    append_assoc (p.bytes_of traits.size_bytes (traits.on_out size)) cut
                        (next ++ rest),
                    append_assoc (p.bytes_of traits.size_bytes (traits.on_out size)) (cut ++ next)
                        rest,
                    append_assoc cut next rest,
                  )
                  refl)),
      )
