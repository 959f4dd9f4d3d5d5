-- ===== src/Gspp/DualConnection/Disconnect.antt =====
-- DualConnection: when the receive loop goes on, and what an exception in a handler leads to.
use re_bacs_env.Prelude.{
  ℕ, ◌≡◌, ◌≢◌, refl, ap, sym, ◌∙◌, Bool, true, false, not, ◌&&◌, Option, List, String, Outcome, ok,
  throws, fault, diverges, ill_formed, runtime_error, unknown, >>--eq-ok,
}
use re_bacs_env.Gspp.PacketHandlers.{HandlerResult, continue, disconnect}
use re_bacs_env.Gspp.DualConnection.{
  DualConnection, Attempt, call, is_continue, schedule_disconnect, handle_guarded, on_exception,
  catch_exception, on_packet,
}

abbrev pub Handler {ℓ κ} : Type ℓ → Type κ → Type (ℓ ⊔ κ)
Handler D A = DualConnection D A → List ℕ → Attempt D A HandlerResult

abbrev pub Callback {ℓ κ} : Type ℓ → Type κ → Type 0 → Type (ℓ ⊔ κ)
Callback D A X = Option (DualConnection D A → X → Attempt D A (Unit {0}))

both :
    (r : HandlerResult) (k : Bool) → (is_continue r && not k) ≡ true → (r ≡ continue) × (k ≡ false)
both continue true h = cc
both continue false h = (refl, refl)
both disconnect k h = cc

module _ {ℓ κ} {D : Type ℓ} {A : Type κ} where
  module _ (handle : Handler D A) (on_handle : Callback D A HandlerResult)
      (on_handle_exception : Callback D A String) where
    on_exception-ne-true :
        (c c' : DualConnection D A) (what : String)
        → on_exception handle on_handle on_handle_exception c what ≢ (ok true, c')
    unfolding on_exception
    on_exception-ne-true c c' what h =
        let (_, c₁, _, h₁) = >>--eq-ok (call on_handle_exception c what) _ c' true h in
        let (_, c₂, _, h₂) =
          >>--eq-ok (call on_handle (schedule_disconnect c₁) disconnect) _ c' true h₁ in
        cc (ap (λ r. r.0) h₂)

    catch-true :
        (m : Attempt D A Bool) (c' : DualConnection D A)
        → catch_exception handle on_handle on_handle_exception m ≡ (ok true, c')
        → m ≡ (ok true, c')
    unfolding catch_exception
    catch-true (ok more, c) c' h = h
    catch-true (throws (runtime_error what), c) c' h = absurd (on_exception-ne-true c c' what h)
    catch-true (throws unknown, c) c' h = cc (ap (λ r. r.0) h)
    catch-true (fault, c) c' h = cc (ap (λ r. r.0) h)
    catch-true (diverges, c) c' h = cc (ap (λ r. r.0) h)
    catch-true (ill_formed, c) c' h = cc (ap (λ r. r.0) h)

    -- The calls behind an answer to read on.
    continued :
        (c c' : DualConnection D A) (buffer : List ℕ)
        → on_packet handle on_handle on_handle_exception c buffer ≡ (ok true, c')
        → (c₁ : DualConnection D A) × (handle c buffer ≡ (ok continue, c₁))
          × (call on_handle c₁ continue ≡ (ok tt, c'))
          × (c'.killed ≡ false)
    unfolding on_packet
    continued c c' buffer h =
        let (result, c₁, e₁, h₁) =
          >>--eq-ok (handle c buffer) _ c' true
            (catch-true (handle_guarded handle on_handle on_handle_exception c buffer) c' h) in
        let (_, c₂, e₂, h₂) = >>--eq-ok (call on_handle c₁ result) _ c' true h₁ in
        let same : c₂ ≡ c' = ap (λ r. r.1) h₂ in
        let (goes, alive) =
          both result c₂.killed (cc (ap {B = Outcome Bool} (λ (r : Attempt D A Bool). r.0) h₂)) in
        (
          c₁,
          e₁ ∙ ap (λ r. (ok r, c₁)) goes,
          ap (λ r. call on_handle c₁ r) (sym goes) ∙ e₂ ∙ ap (λ d. (ok tt, d)) same,
          sym (ap (λ d. d.killed) same) ∙ alive,
        )

  -- The function given to the stream client answers true, that is to read on, only if the handler
  -- returned Continue and the connection is not killed when all callbacks have run; they may do
  -- anything.
  pub on_packet-continue :
      (handle : Handler D A) (on_handle : Callback D A HandlerResult)
      (on_handle_exception : Callback D A String) (c c' : DualConnection D A) (buffer : List ℕ)
      → on_packet handle on_handle on_handle_exception c buffer ≡ (ok true, c')
      → ((handle c buffer).0 ≡ ok continue) × (c'.killed ≡ false)
  on_packet-continue handle on_handle on_handle_exception c c' buffer h =
      let (c₁, e₁, _, k) = continued handle on_handle on_handle_exception c c' buffer h in
      (ap (λ r. r.0) e₁, k)

  -- On a killed connection it never answers true: the receive loop ends at the next message, if
  -- neither the handler nor the handle callback clears the mark, which only the class can write.
  pub on_packet-killed :
      (handle : Handler D A) (on_handle : Callback D A HandlerResult)
      (on_handle_exception : Callback D A String) (c : DualConnection D A) (buffer : List ℕ)
      → ((d : DualConnection D A) (b : List ℕ) → d.killed ≡ true → (handle d b).1.killed ≡ true)
      → ((d : DualConnection D A) (r : HandlerResult)
          → d.killed ≡ true
          → (call on_handle d r).1.killed ≡ true)
      → c.killed ≡ true
      → (on_packet handle on_handle on_handle_exception c buffer).0 ≢ ok true
  on_packet-killed handle on_handle on_handle_exception c buffer keep keep' dead e =
      let r = on_packet handle on_handle on_handle_exception c buffer in
      let (c₁, e₁, e₂, k) =
        continued handle on_handle on_handle_exception c r.1 buffer (λ i. (e i, r.1)) in
      let k₁ : c₁.killed ≡ true = sym (ap (λ q. q.1.killed) e₁) ∙ keep c buffer dead in
      let k₂ : r.1.killed ≡ true = sym (ap (λ q. q.1.killed) e₂) ∙ keep' c₁ continue k₁ in cc
