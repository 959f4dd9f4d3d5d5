-- ===== src/Gspp/PacketHandlers/Robustness.antt =====
-- HandlerManager on the bytes of any peer.
use mathlib.Core.Logic.{if_pos, if_neg}
use re_bacs_env.Prelude.{
  ℕ, ◌^◌, ◌≤◌, ◌<◌, ◌≡◌, refl, sym, subst, arith, Option, none, some, List, [], ◌∷◌, String,
  Outcome, ok, throws, fault, diverges, ill_formed, ◌>>-◌, length, All,
}
use re_bacs_env.Plakpacs.Platform.{Platform}
use re_bacs_env.Plakpacs.Types.{Fields, El, scalar, object, field, initial}
use re_bacs_env.Plakpacs.Streams.{ReadStream, size_mod, read_value}
use re_bacs_env.Plakpacs.Streams.Bounds.{read_bytes-fault}
use re_bacs_env.Plakpacs.Serializer.{read, rethrow_in_field}
use re_bacs_env.Plakpacs.Serializer.Safety.{widest, read-Keeps}
use re_bacs_env.Plakpacs.Serializer.Safety.Keeping.{Keeps}
use re_bacs_env.Gspp.PacketHandlers.{
  HandlerResult, Packets, HandlerImpl, HandlerManager, find, run_handler, handle_with,
  handle_packet_header, handle_packet_stream, handle_packet,
}

-- A call that stays within its buffers and ends. It may throw.
abbrev pub IsContained {ℓ} : {B : Type ℓ} → Outcome B → Type 0
IsContained (ok b) = Unit {0}
IsContained (throws e) = Unit {0}
IsContained fault = ⊥
IsContained diverges = ⊥
IsContained ill_formed = Unit {0}

module _ (packets : Packets) where
  open packets use {State, Header, IdType, id_discrete, deserialize, extract}

  -- A handler that is contained, for packets of a schema without wider scalars than `n` bytes.
  pub record Tolerates (n : ℕ) (h : HandlerImpl packets) : Type 0 where
    pub narrow : widest h.schema ≤ n
    pub handles :
        (st : State) (header : Header) (v : El h.schema) → IsContained (h.handle st header v).0

  -- The handler, if there is one, has the property.
  abbrev Holds : (HandlerImpl packets → Type 0) → Option (HandlerImpl packets) → Type 0
  Holds P none = Unit {0}
  Holds P (some h) = P h

  find-Holds :
      (P : HandlerImpl packets → Type 0) (type : IdType) (handlers : HandlerManager packets)
      → All (λ entry. P entry.1) handlers
      → Holds P (find packets type handlers)
  unfolding find
  find-Holds P type [] all = tt
  find-Holds P type ((id, h) ∷ handlers) all = elim (id_discrete id type) [
    | yes e ↦ subst (Holds P) (sym (if_pos (id_discrete id type) e _ _)) all.0
    | no n ↦
        subst (Holds P) (sym (if_neg (id_discrete id type) n _ _))
          (find-Holds P type handlers all.1)
  ]

  module _ (p : Platform) where
    bind-IsContained {ℓ κ} :
        {B : Type ℓ} {C : Type κ} (s : ReadStream) (r : Outcome (B × ReadStream)) (st : State)
        (f : B → ReadStream → State → Outcome C × State)
        → Keeps s r
        → ((b : B) (s' : ReadStream)
            → s'.bytes ≡ s.bytes
            → s'.position ≤ length s'.bytes
            → IsContained (f b s' st).0)
        → IsContained ((r, st) >>- λ (b, s') st'. f b s' st').0
    bind-IsContained s (ok (b, s')) st f k h = h b s' k.0 k.2
    bind-IsContained s (throws e) st f k h = tt
    bind-IsContained s fault st f k h = k
    bind-IsContained s diverges st f k h = k
    bind-IsContained s ill_formed st f k h = tt

    run_handler-IsContained :
        (h : HandlerImpl packets) (st : State) (header : Header) (rs : ReadStream)
        → rs.position ≤ length rs.bytes
        → length rs.bytes < size_mod
        → Tolerates (length rs.bytes) h
        → IsContained (run_handler packets p h st header rs).0
    unfolding run_handler
    run_handler-IsContained h st header rs within fits t =
        bind-IsContained rs (read p h.schema (initial h.schema) rs) st
          (λ schema rs' st'. h.handle st' header schema)
          (read-Keeps p h.schema (initial h.schema) rs within fits t.narrow)
          (λ schema rs' _ _. t.handles st header schema)

    handle_with-IsContained :
        (o : Option (HandlerImpl packets)) (st : State) (header : Header) (rs : ReadStream)
        → rs.position ≤ length rs.bytes
        → length rs.bytes < size_mod
        → Holds (Tolerates (length rs.bytes)) o
        → IsContained (handle_with packets p o st header rs).0
    unfolding handle_with
    handle_with-IsContained none st header rs within fits t = tt
    handle_with-IsContained (some h) st header rs within fits t =
        run_handler-IsContained h st header rs within fits t

    -- Whatever the bytes of a packet are, handling it stays within its buffer and ends, if it has
    -- fewer than 2^64 of them, but no fewer than the widest scalar in any registered schema, the
    -- header's reader keeps to the stream, and the handlers themselves are contained.
    pub handle_packet-IsContained :
        (handlers : HandlerManager packets) (st : State) (bytes : List ℕ)
        → length bytes < size_mod
        → Keeps
            (record { bytes = bytes; position = 0 })
            (deserialize (record { bytes = bytes; position = 0 }))
        → All (λ entry. Tolerates (length bytes) entry.1) handlers
        → IsContained (handle_packet packets p handlers st bytes).0
    unfolding handle_packet handle_packet_stream handle_packet_header
    handle_packet-IsContained handlers st bytes fits keeps all =
        bind-IsContained (record { bytes = bytes; position = 0 })
          (deserialize (record { bytes = bytes; position = 0 })) st
          (λ header rs' st'. handle_packet_header packets p handlers st' header rs') keeps
          (λ header rs' same within.
            handle_with-IsContained (find packets (extract header) handlers) st header rs' within
              (rw same fits)
              (find-Holds (Tolerates (length rs'.bytes)) (extract header) handlers (rw same all)))

    -- A packet shorter than the scalar with which its handler's schema begins makes the reader leave
    -- the buffer: the handler is not called, and no exception is thrown.
    pub handle_packet-short :
        (handlers : HandlerManager packets) (st : State) (bytes : List ℕ) (header : Header)
        (position w : ℕ) (holder name : String) (fs : Fields)
        (handle : State
          → Header
          → El (object holder (field name (scalar w) fs))
          → Outcome HandlerResult × State)
        → deserialize (record { bytes = bytes; position = 0 })
          ≡ ok (header, record { bytes = bytes; position = position })
        → find packets (extract header) handlers
          ≡ some (record { schema = object holder (field name (scalar w) fs); handle = handle })
        → position ≤ length bytes
        → length bytes < w
        → w < 2 ^ 63
        → handle_packet packets p handlers st bytes ≡ (fault, st)
    unfolding handle_packet handle_packet_stream handle_packet_header handle_with run_handler read
        rethrow_in_field initial read_value
    handle_packet-short handlers st bytes header position w holder name fs handle parsed known
          within short small =
        rw
          (
            parsed,
            known,
            read_bytes-fault w (record { bytes = bytes; position = position })
                (record { within = within; fits = omega arith; wide = omega arith }) short small,
          )
          refl
