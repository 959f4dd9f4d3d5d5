-- ===== src/Gspp/DualConnection/LifeCycle/Marks.antt =====
-- DualConnection::ScheduleDisconnect in any order with all that can happen to a connection.
use re_bacs_env.Prelude.{
  ℕ, ◌≤◌, ◌≡◌, ◌≢◌, ◌⊎◌, inl, inr, refl, arith, Bool, true, false, List, [], String, ok, throws,
  fault, diverges, ill_formed, length,
}
use re_bacs_env.Bacs.Asio.{ErrorCode}
use re_bacs_env.Gspp.PacketHandlers.{HandlerResult}
use re_bacs_env.Gspp.DualConnection.{
  DualConnection, Attempt, schedule_disconnect, close, on_packet, answer,
}
use re_bacs_env.Gspp.DualConnection.Disconnect.{Handler, Callback, on_packet-killed}
use re_bacs_env.Gspp.DualConnection.LifeCycle.{
  Life, rests, sending, writing, closing, disconnecting, receiving, failing, AreKeeping,
  packet-keeps,
}

module _ {ℓ κ} {D : Type ℓ} {A : Type κ} (handle : Handler D A)
    (on_handle : Callback D A HandlerResult) (on_handle_exception : Callback D A String)
    (on_death : Callback D A ErrorCode) where
  killed-marks : (c : DualConnection D A) → c.killed ≡ true → (schedule_disconnect c).killed ≡ true
  unfolding schedule_disconnect
  killed-marks c h = refl

  -- Once the receive loop has ended, no packet comes in.
  ended-none :
      {c c' : DualConnection D A} {reading reading' : Bool} {msgs : List (List ℕ)}
      → Life handle on_handle on_handle_exception on_death c reading msgs c' reading'
      → reading ≡ false
      → (msgs ≡ []) × (reading' ≡ false)
  ended-none rests h = (refl, h)
  ended-none (sending bytes st has life) h = ended-none life h
  ended-none (writing st st' has busy e life) h = ended-none life h
  ended-none (closing life) h = ended-none life h
  ended-none (disconnecting life) h = ended-none life h
  ended-none (receiving msg life) h = cc
  ended-none (failing ec life) h = cc

  not_more :
      (m : Attempt D A Bool)
      → m.0 ≢ ok true
      → (answer handle on_handle on_handle_exception m).1 ≡ false
  not_more (ok true, c) h = absurd (h refl)
  not_more (ok false, c) h = refl
  not_more (throws e, c) h = refl
  not_more (fault, c) h = refl
  not_more (diverges, c) h = refl
  not_more (ill_formed, c) h = refl

  -- Whatever happens to a connection that is marked as killed, in whatever order, but that its
  -- receive loop is started again: at most one more packet is handed to `on_packet`, then the
  -- receive loop has ended, and the mark stays. The program's functions do not clear the mark,
  -- which only the class can write.
  pub Life-killed :
      {c c' : DualConnection D A} {reading reading' : Bool} {msgs : List (List ℕ)}
      → AreKeeping handle on_handle on_handle_exception on_death (λ d. d.killed ≡ true)
      → Life handle on_handle on_handle_exception on_death c reading msgs c' reading'
      → c.killed ≡ true
      → (length msgs ≤ 1) × ((msgs ≡ []) ⊎ (reading' ≡ false)) × (c'.killed ≡ true)
  unfolding close schedule_disconnect
  Life-killed keeps rests dead = (omega arith, inl refl, dead)
  Life-killed keeps (sending bytes st has life) dead = Life-killed keeps life dead
  Life-killed keeps (writing st st' has busy e life) dead = Life-killed keeps life dead
  Life-killed keeps (closing life) dead = Life-killed keeps life dead
  Life-killed keeps (disconnecting life) dead = Life-killed keeps life refl
  Life-killed {c = c} keeps (receiving msg life) dead =
      let last = not_more (on_packet handle on_handle on_handle_exception c msg) (
        on_packet-killed handle on_handle on_handle_exception c msg keeps.by_handle
          keeps.by_on_handle dead) in
      let (none_left, ended) = ended-none life last in
      let (_, _, dead') = Life-killed keeps life (
        packet-keeps handle on_handle on_handle_exception on_death (λ d. d.killed ≡ true) keeps
          killed-marks c msg dead) in
      (rw none_left (omega arith), inr ended, dead')
  Life-killed {c = c} keeps (failing ec life) dead =
      Life-killed keeps life (keeps.by_death c ec dead)
