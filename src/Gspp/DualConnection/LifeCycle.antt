-- ===== src/Gspp/DualConnection/LifeCycle.antt =====
-- DualConnection in use from several sides: packets and errors come in, writes complete, and the program
-- sends, closes and disconnects, in any order.
pub mod Marks
mod Runs
use re_bacs_env.Prelude.{
  ℕ, ◌≤◌, ◌<◌, ◌≡◌, ◌≢◌, ◌⊎◌, inl, inr, refl, arith, Bool, true, false, Option, none, some, List,
  [], ◌∷◌, String, Outcome, ok, throws, fault, diverges, ill_formed, runtime_error, unknown, ◌>>-◌,
  length,
}
use re_bacs_env.Bacs.Asio.{ErrorCode}
use re_bacs_env.Gspp.StreamClient.{SharedStateBlock, send, close_socket, on_written}
use re_bacs_env.Gspp.StreamClient.Writing.{Run, sends, closes, completes, Run-Inv}
use re_bacs_env.Gspp.StreamClient.Writing.Invariant.{Inv}
use re_bacs_env.Gspp.PacketHandlers.{HandlerResult, disconnect}
use re_bacs_env.Gspp.DualConnection.{
  DualConnection, Attempt, call, schedule_disconnect, close, handle_guarded, on_exception,
  catch_exception, on_packet, answer, on_stream_death,
}
use re_bacs_env.Gspp.DualConnection.Disconnect.{Handler, Callback, on_packet-killed}

module _ {ℓ κ} {D : Type ℓ} {A : Type κ} (handle : Handler D A)
    (on_handle : Callback D A HandlerResult) (on_handle_exception : Callback D A String)
    (on_death : Callback D A ErrorCode) where
  -- What `on_packet` answers on a packet, with the connection as it is then.
  abbrev pub packet : DualConnection D A → List ℕ → Attempt D A (Unit {0}) × Bool
  packet c msg =
      answer handle on_handle on_handle_exception
        (on_packet handle on_handle on_handle_exception c msg)

  -- From a connection, and whether its receive loop waits for a packet, over the packets that come
  -- in, to a later connection. The loop is not started again.
  pub data Life
      : DualConnection D A → Bool → List (List ℕ) → DualConnection D A → Bool → Type (ℓ ⊔ κ) where
    rests : {c : DualConnection D A} {reading : Bool} → Life c reading [] c reading
    sending :
        {c c' : DualConnection D A} {reading reading' : Bool} {msgs : List (List ℕ)}
        (bytes : List ℕ) (st : SharedStateBlock)
        → c.stream ≡ some st
        → Life (record c { stream = some (send bytes st) }) reading msgs c' reading'
        → Life c reading msgs c' reading'
    writing :
        {c c' : DualConnection D A} {reading reading' : Bool} {msgs : List (List ℕ)}
        (st st' : SharedStateBlock)
        → c.stream ≡ some st
        → 0 < st.pending
        → on_written st ≡ ok st'
        → Life (record c { stream = some st' }) reading msgs c' reading'
        → Life c reading msgs c' reading'
    closing :
        {c c' : DualConnection D A} {reading reading' : Bool} {msgs : List (List ℕ)}
        → Life (close c) reading msgs c' reading'
        → Life c reading msgs c' reading'
    disconnecting :
        {c c' : DualConnection D A} {reading reading' : Bool} {msgs : List (List ℕ)}
        → Life (schedule_disconnect c) reading msgs c' reading'
        → Life c reading msgs c' reading'
    receiving :
        {c c' : DualConnection D A} {reading' : Bool} {msgs : List (List ℕ)} (msg : List ℕ)
        → Life (packet c msg).0.1 (packet c msg).1 msgs c' reading'
        → Life c true (msg ∷ msgs) c' reading'
    failing :
        {c c' : DualConnection D A} {reading' : Bool} {msgs : List (List ℕ)} (ec : ErrorCode)
        → Life (call on_death c ec).1 false msgs c' reading'
        → Life c true msgs c' reading'

  -- What the program's functions keep, however they end.
  pub record AreKeeping (P : DualConnection D A → Type 0) : Type (ℓ ⊔ κ) where
    pub by_handle : (c : DualConnection D A) (msg : List ℕ) → P c → P (handle c msg).1
    pub by_on_handle : (c : DualConnection D A) (r : HandlerResult) → P c → P (call on_handle c r).1
    pub by_exception :
        (c : DualConnection D A) (what : String) → P c → P (call on_handle_exception c what).1
    pub by_death : (c : DualConnection D A) (ec : ErrorCode) → P c → P (call on_death c ec).1

  module _ (P : DualConnection D A → Type 0) (keeps : AreKeeping P)
      (marks : (c : DualConnection D A) → P c → P (schedule_disconnect c)) where
    bind-keeps {μ ν} :
        {B : Type μ} {C : Type ν} (m : Attempt D A B) (f : B → DualConnection D A → Attempt D A C)
        → P m.1
        → ((b : B) (c : DualConnection D A) → P c → P (f b c).1)
        → P (m >>- f).1
    bind-keeps (ok b, c) f h k = k b c h
    bind-keeps (throws e, c) f h k = h
    bind-keeps (fault, c) f h k = h
    bind-keeps (diverges, c) f h k = h
    bind-keeps (ill_formed, c) f h k = h

    catch-keeps :
        (m : Attempt D A Bool)
        → P m.1
        → P (catch_exception handle on_handle on_handle_exception m).1
    unfolding catch_exception on_exception
    catch-keeps (ok more, c) h = h
    catch-keeps (throws (runtime_error what), c) h =
        bind-keeps (call on_handle_exception c what) _ (keeps.by_exception c what h) (λ _ c₁ h₁.
          bind-keeps (call on_handle (schedule_disconnect c₁) disconnect) _
            (keeps.by_on_handle (schedule_disconnect c₁) disconnect (marks c₁ h₁)) (λ _ c₂ h₂. h₂))
    catch-keeps (throws unknown, c) h = h
    catch-keeps (fault, c) h = h
    catch-keeps (diverges, c) h = h
    catch-keeps (ill_formed, c) h = h

    answer-keeps :
        (m : Attempt D A Bool) → P m.1 → P (answer handle on_handle on_handle_exception m).0.1
    answer-keeps (ok more, c) h = h
    answer-keeps (throws e, c) h = h
    answer-keeps (fault, c) h = h
    answer-keeps (diverges, c) h = h
    answer-keeps (ill_formed, c) h = h

    pub packet-keeps : (c : DualConnection D A) (msg : List ℕ) → P c → P (packet c msg).0.1
    unfolding on_packet handle_guarded
    packet-keeps c msg h = answer-keeps (on_packet handle on_handle on_handle_exception c msg) (
        catch-keeps (handle_guarded handle on_handle on_handle_exception c msg) (
          bind-keeps (handle c msg) _ (keeps.by_handle c msg h) (λ r c₁ h₁.
            bind-keeps (call on_handle c₁ r) _ (keeps.by_on_handle c₁ r h₁) (λ _ c₂ h₂. h₂))))
