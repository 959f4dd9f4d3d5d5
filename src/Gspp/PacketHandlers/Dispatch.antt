-- ===== src/Gspp/PacketHandlers/Dispatch.antt =====
-- HandlerManager: registration, and what a handler gets.
use mathlib.Core.Logic.{if_pos, if_neg}
use re_bacs_env.Prelude.{
  ℕ, ◌+◌, ◌<◌, ◌≡◌, ◌≢◌, ◌∙◌, refl, sym, subst, inl, inr, Option, none, some, List, [], ◌++◌,
  append-nil, ok, Option-cases, length,
}
use re_bacs_env.Plakpacs.Platform.{Platform}
use re_bacs_env.Plakpacs.Types.{El, initial}
use re_bacs_env.Plakpacs.Streams.{WriteStream, size_mod}
use re_bacs_env.Plakpacs.Serializer.{read, write}
use re_bacs_env.Plakpacs.Format.{Fits, encode}
use re_bacs_env.Plakpacs.Format.RoundTrip.{read-write}
use re_bacs_env.Gspp.PacketHandlers.{
  Packets, HandlerImpl, HandlerManager, find, register_handler, handle_packet,
}

abbrev pub or_else {ℓ} : {A : Type ℓ} → Option A → A → A
or_else none d = d
or_else (some a) d = a

module _ (packets : Packets) where
  open packets use {State, Header, IdType, id_discrete, deserialize, extract}

  -- After a registration the id has a handler: the first one that was registered for it. No other
  -- id's handler changes.
  pub find-register_handler :
      (type other : IdType) (h : HandlerImpl packets) (handlers : HandlerManager packets)
      → (find packets type (register_handler packets type h handlers)
          ≡ some (or_else (find packets type handlers) h))
        × (other ≢ type
            → find packets other (register_handler packets type h handlers)
              ≡ find packets other handlers)
  unfolding register_handler
  find-register_handler type other h handlers = elim (Option-cases (find packets type handlers)) [
    | inl e ↦ (
      rw (e, register_handler) (if_pos (id_discrete type type) refl _ _),
      λ ne. rw (e, register_handler) (if_neg (id_discrete type other) (λ q. ne (sym q)) _ _),
    )
    | inr (old, e) ↦ (rw (e, register_handler) e, λ ne. rw (e, register_handler) refl)
  ]

  -- A packet that is a header and a value of the schema registered under the header's id reaches
  -- that handler with the header and the value, if the value fits its type, the packet has fewer than
  -- 2^64 bytes, and the header is read from its own bytes.
  pub handle_packet-write :
      (p : Platform) (handlers : HandlerManager packets) (h : HandlerImpl packets) (st : State)
      (header : Header) (front : List ℕ) (v : El h.schema) (ws : WriteStream)
      → find packets (extract header) handlers ≡ some h
      → Fits h.schema v
      → length front + length (encode p h.schema v) < size_mod
      → write p h.schema v (record { bytes = front }) ≡ ok ws
      → deserialize (record { bytes = ws.bytes; position = 0 })
        ≡ ok (header, record { bytes = ws.bytes; position = length front })
      → handle_packet packets p handlers st ws.bytes ≡ h.handle st header v
  unfolding handle_packet
  handle_packet-write p handlers h st header front v ws known fits small written parsed =
      let (ws', written', r) = read-write p h.schema v front [] fits (rw append-nil small) in
      let same : ws' ≡ ws = cc (sym written' ∙ written) in
      let arrived : read p h.schema (initial h.schema)
            (record { bytes = ws.bytes ++ []; position = length front })
          ≡ ok (v, record { bytes = ws.bytes ++ []; position = length ws.bytes }) =
        subst
          (λ (u : WriteStream).
            read p h.schema (initial h.schema)
              (record { bytes = u.bytes ++ []; position = length front })
            ≡ ok (v, record { bytes = u.bytes ++ []; position = length u.bytes }))
          same r in
      rw (parsed, known, rw (append-nil ws.bytes) at arrived)
