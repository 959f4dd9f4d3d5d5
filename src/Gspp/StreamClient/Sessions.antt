-- ===== src/Gspp/StreamClient/Sessions.antt =====
-- What StreamClient's receive loop makes of any bytes, as a relation.
use re_bacs_env.Prelude.{
  ℕ, zero, suc, ◌<◌, ◌≡◌, refl, ap, sym, Outcome, arith, true, false, inl, inr, List, ◌++◌, ok,
  length, length-append, Bool-cases,
}
use re_bacs_env.Plakpacs.Platform.{Platform}
use re_bacs_env.Bacs.Asio.{ErrorCode, Socket, success, failed}
use re_bacs_env.Bacs.{
  sp_default, async_read_sp, read_body, async_read_sp_loop, go_on, shared_buffer,
}
use re_bacs_env.Bacs.Framing.{ErrorCode-cases, shared_buffer-full}
use re_bacs_env.Gspp.StreamClient.{
  Callbacks, call_death, call_handle, on_received, start_receive_loop,
}

module _ {ℓ} {S : Type ℓ} (p : Platform) (cb : Callbacks S) where
  -- From a state and the bytes that come in, to the state when the loop has ended. A message is four
  -- bytes with its size, and as many bytes as that says. It is handed to `on_handle`, whose
  -- answer decides whether there is more; an error is handed to `on_death`, and is the end.
  pub data Session : S → List ℕ → S → Type ℓ where
    dies :
        {st : S} {bytes : List ℕ} (ec : ErrorCode)
        → failed ec ≡ true
        → Session st bytes (call_death cb.on_death st ec)
    refuses :
        {st : S} (size msg rest : List ℕ)
        → length size ≡ 4
        → p.value_of size ≡ length msg
        → (call_handle cb.on_handle st msg).1 ≡ false
        → Session st (size ++ (msg ++ rest)) (call_handle cb.on_handle st msg).0
    accepts :
        {st st' : S} (size msg rest : List ℕ)
        → length size ≡ 4
        → p.value_of size ≡ length msg
        → (call_handle cb.on_handle st msg).1 ≡ true
        → Session (call_handle cb.on_handle st msg).0 rest st'
        → Session st (size ++ (msg ++ rest)) st'

  module _ (socket : Socket) where
    open socket use {World, async_read, incoming, read_all}

    abbrev Ends : S → List ℕ → Outcome (S × World) → Type ℓ
    Ends st bytes r = (st' : S) × (w' : World) × (r ≡ ok (st', w')) × Session st bytes st'

    -- Behind the size of a message.
    behind_size :
        (fuel : ℕ) (st : S) (size : List ℕ) (w : World)
        → ((st₁ : S) (w₁ : World)
            → length (incoming w₁) < fuel
            → Ends st₁
                (incoming w₁)
                (async_read_sp_loop p sp_default socket fuel (on_received cb) st₁ w₁))
        → length size ≡ 4
        → length (incoming w) < fuel
        → Ends st (size ++ incoming w) (
            go_on p sp_default socket
              (read_body p sp_default socket success 4
                (ok (p.value_of size))
                (λ ec count buffer w'. (on_received cb st ec count buffer, w'))
                w)
              (async_read_sp_loop p sp_default socket fuel (on_received cb)))
    unfolding read_body go_on on_received failed
    behind_size fuel st size w again four h =
        let n = p.value_of size in
        let msg = (async_read n w).0.1 in
        let w₂ = (async_read n w).1 in
        elim (ErrorCode-cases (async_read n w).0.0) [
          | inr (bad, never) ↦ rw bad (_, _, refl, dies _ bad)
          | inl good ↦
              let (len, split) = read_all n w good in
              let full : shared_buffer p n msg ≡ msg = rw len at (shared_buffer-full p msg) in
              elim (Bool-cases (call_handle cb.on_handle st msg).1) [
                | inl more ↦
                    let (st', w', e, session) =
                      again (call_handle cb.on_handle st msg).0 w₂
                        (omega (arith, h, ap length split, length-append msg (incoming w₂))) in
                    (
                      st',
                      w',
                      rw (good, full, more) e,
                      rw split (accepts size msg (incoming w₂) four (sym len) more session),
                    )
                | inr stop ↦ (
                  (call_handle cb.on_handle st msg).0,
                  w₂,
                  rw (good, full, stop) refl,
                  rw split (refuses size msg (incoming w₂) four (sym len) stop),
                )
              ]
        ]

    -- With the default size prefix and more rounds of fuel than bytes that are coming in, the loop
    -- ends, whatever the peer sends, whichever reads fail, and whatever the callbacks answer. It has
    -- then handed over exactly the messages that come first in these bytes, each once and in their
    -- order, up to the first one that was refused or to the first failure, at which `on_death` is
    -- called once.
    pub start_receive_loop-Session :
        (fuel : ℕ) (st : S) (w : World)
        → length (incoming w) < fuel
        → (st' : S) × (w' : World) × (start_receive_loop p sp_default socket fuel cb st w
            ≡ ok (st', w'))
          × Session st (incoming w) st'
    unfolding start_receive_loop async_read_sp_loop async_read_sp read_body go_on sp_default
        on_received failed
    start_receive_loop-Session zero st w h = absurd (omega arith)
    start_receive_loop-Session (suc fuel) st w h = elim (ErrorCode-cases (async_read 4 w).0.0) [
      | inr (bad, never) ↦ rw bad (_, _, refl, dies _ bad)
      | inl good ↦
          let (four, split) = read_all 4 w good in
          let size = (async_read 4 w).0.1 in
          let w₁ = (async_read 4 w).1 in
          rw (good, split)
            (behind_size fuel st size w₁ (start_receive_loop-Session fuel) four
              (omega (arith, h, four, ap length split, length-append size (incoming w₁))))
    ]
