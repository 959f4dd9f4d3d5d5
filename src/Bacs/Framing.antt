-- ===== src/Bacs/Framing.antt =====
-- One size-prefixed message: bacs::async_write_sp and bacs::async_read_sp.
use re_bacs_env.Prelude.{
  ℕ, ◌*◌, ◌%◌, ◌^◌, ◌<◌, ◌≡◌, ◌∙◌, refl, sym, ap, subst, append-split, ◌⊎◌, inl, inr, ◌≢◌, arith,
  true, List, [], ◌∷◌, ◌++◌, append_assoc, append-nil, ok, length, length-append, take-append,
  replicate, All,
}
use native.Mathlib.Nat.{mod-eq_of_lt}
use re_bacs_env.Plakpacs.Platform.{Platform}
use re_bacs_env.Plakpacs.Format.{IsByte}
use re_bacs_env.Bacs.Asio.{ErrorCode, Socket, success, failure, failed}
use re_bacs_env.Bacs.{
  sp_default, SpTraits, memory, shared_buffer, header, body, async_write_sp, async_read_sp,
}

-- The hooks of the two peers undo one another on every size, and keep it in range.
pub record AreInverse (traits : SpTraits) : Type 0 where
  pub out_range : (n : ℕ) → n < 256 ^ traits.size_bytes → traits.on_out n < 256 ^ traits.size_bytes
  pub in_out : (n : ℕ) → n < 256 ^ traits.size_bytes → traits.on_in (traits.on_out n) ≡ ok n

pub sp_default-AreInverse : AreInverse sp_default
unfolding sp_default
sp_default-AreInverse = record { out_range = λ n h. h; in_out = λ n h. refl }

pub ErrorCode-cases : (ec : ErrorCode) → (ec ≡ success) ⊎ ((failed ec ≡ true) × (ec ≢ success))
unfolding failed
ErrorCode-cases success = inl refl
ErrorCode-cases (failure n) = inr (refl, λ e. cc)

-- The size prefix and the bytes of a message.
unfoldable pub frame : Platform → SpTraits → List ℕ → List ℕ
frame p traits msg =
    p.bytes_of traits.size_bytes (traits.on_out (length msg % 256 ^ traits.size_bytes)) ++ msg

module _ (p : Platform) where
  memory-bytes : (xs : List ℕ) → All IsByte xs → memory p 1 xs ≡ xs
  unfolding memory
  memory-bytes [] h = refl
  memory-bytes (x ∷ xs) h = rw (p.bytes_of_one x h.0, memory-bytes xs h.1)

  pub length-memory : (width : ℕ) (xs : List ℕ) → length (memory p width xs) ≡ length xs * width
  unfolding memory
  length-memory width [] = omega arith
  length-memory width (x ∷ xs) = omega (
    arith,
    length-append (p.bytes_of width x) (memory p width xs),
    p.length-bytes_of width x,
    length-memory width xs,
  )

  pub shared_buffer-full : (bytes : List ℕ) → shared_buffer p (length bytes) bytes ≡ bytes
  unfolding shared_buffer
  shared_buffer-full bytes = take-append bytes (replicate (length bytes) p.indeterminate)

module _ (p : Platform) (traits : SpTraits) (socket : Socket) where
  open socket use {World, async_write, async_read, written, incoming}

  -- A read of what is at hand.
  pub read_next :
      (xs rest : List ℕ) (w : World)
      → incoming w ≡ xs ++ rest
      → (w' : World) × (async_read (length xs) w ≡ ((success, xs), w')) × (incoming w' ≡ rest)
  read_next xs rest w e =
      let ready =
        socket.read_ready (length xs) w (omega (arith, ap length e, length-append xs rest)) in
      let (len, split) = socket.read_all (length xs) w ready in
      let (same, behind) =
        append-split xs (async_read (length xs) w).0.1 rest (incoming (async_read (length xs) w).1)
          (sym len) (sym e ∙ split) in
      (
        (async_read (length xs) w).1,
        λ i. ((ready i, sym same i), (async_read (length xs) w).1),
        sym behind,
      )

  pub header-bytes :
      (n : ℕ)
      → header p traits socket 1 n
        ≡ p.bytes_of traits.size_bytes (traits.on_out (n % 256 ^ traits.size_bytes))
  unfolding header
  header-bytes n =
      ap (λ (k : ℕ). p.bytes_of traits.size_bytes (traits.on_out (k % 256 ^ traits.size_bytes)))
        (omega arith)

  pub body-bytes : (msg : List ℕ) → All IsByte msg → body p traits socket 1 msg ≡ msg
  unfolding body
  body-bytes msg h = rw (memory-bytes p msg h) (rw append-nil at (take-append msg []))

  -- What the handler of a write is called with.
  abbrev pub sent : ErrorCode → ℕ → World → ErrorCode × World
  sent ec n w = (ec, w)

  -- If the handler of `async_write_sp` is called with no error, the frame of the message has been
  -- written, behind what was written before. The message is a container of bytes.
  pub async_write_sp-frame :
      (msg : List ℕ) (w : World)
      → All IsByte msg
      → (async_write_sp p traits socket 1 msg sent w).0 ≡ success
      → written (async_write_sp p traits socket 1 msg sent w).1 ≡ written w ++ frame p traits msg
  unfolding async_write_sp frame
  async_write_sp-frame msg w h e = elim (ErrorCode-cases (async_write pre w).0.0) [
    | inr (bad, never) ↦ absurd (never (rw bad at e))
    | inl good ↦
        let w' = (async_write pre w).1 in
        let e' : (async_write (body p traits socket 1 msg) w').0.0 ≡ success = rw good at e in
        rw good (
          socket.write_all (body p traits socket 1 msg) w' e'
          ∙ rw (
            socket.write_all pre w good,
            body-bytes msg h,
            header-bytes (length msg),
            append_assoc,
          ))
  ]
    where
      pre : List ℕ
      pre = header p traits socket 1 (length msg)

  -- From a stream that goes on with the frame of a message, `async_read_sp` calls its handler with
  -- no error and with the message, and leaves the bytes behind the frame. The size fits
  -- size_type, and the hooks undo one another.
  pub async_read_sp-frame {ℓ} :
      {A : Type ℓ} (msg rest : List ℕ) (handler : ErrorCode → ℕ → List ℕ → World → A) (w : World)
      → AreInverse traits
      → length msg < 256 ^ traits.size_bytes
      → incoming w ≡ frame p traits msg ++ rest
      → (w' : World) × (async_read_sp p traits socket handler w
          ≡ ok (handler success (length msg) msg w'))
        × (incoming w' ≡ rest)
  unfolding async_read_sp frame
  async_read_sp-frame msg rest handler w inv fits e =
      let size = traits.on_out (length msg % 256 ^ traits.size_bytes) in
      let small : length msg % 256 ^ traits.size_bytes ≡ length msg = mod-eq_of_lt fits in
      let prefix = p.bytes_of traits.size_bytes size in
      let (w₁, read₁, more) =
        subst
          (λ (n : ℕ).
            (w' : World) × (async_read n w ≡ ((success, prefix), w')) × (incoming w' ≡ msg ++ rest))
          (p.length-bytes_of traits.size_bytes size)
          (read_next prefix (msg ++ rest) w (e ∙ append_assoc prefix msg rest)) in
      let (w₂, read₂, left) = read_next msg rest w₁ more in
      (
        w₂,
        rw (
          read₁,
          p.value_of-bytes_of traits.size_bytes size (inv.out_range _ (rw small fits)),
          small,
          inv.in_out (length msg) fits,
          read₂,
          shared_buffer-full p msg,
        ),
        left,
      )
