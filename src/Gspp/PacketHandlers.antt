-- ===== src/Gspp/PacketHandlers.antt =====
-- gspp-net/gspp/packet_handlers.hpp: handlers by packet id.
pub mod Dispatch
pub mod Registration
pub mod Robustness
mod Runs
use re_bacs_env.Prelude.{ℕ, Option, none, some, List, [], ◌∷◌, Outcome, ok, ◌>>-◌}
use mathlib.Core.Logic.{ite}
use re_bacs_env.Plakpacs.Platform.{Platform}
use re_bacs_env.Plakpacs.Types.{Ty, El, initial}
use re_bacs_env.Plakpacs.Streams.{ReadStream}
use re_bacs_env.Plakpacs.Serializer.{read}

pub data HandlerResult : Type 0 where
  continue disconnect : HandlerResult

-- The template arguments of HandlerSystem: the program's state and header, the ids with their
-- equality, the header's PacketSerializer and the extractor of its id.
pub record Packets : Type 1 where
  pub State : Type 0
  pub Header : Type 0
  pub IdType : Type 0
  pub id_discrete : Discrete IdType
  pub deserialize : ReadStream → Outcome (Header × ReadStream)
  pub extract : Header → IdType

module _ (packets : Packets) where
  open packets use {State, Header, IdType, id_discrete, deserialize, extract}

  -- HandlerImpl<Schema>: the packet's type, and the program's PacketHandlerFunction<Schema>, which may
  -- change the state and then throw.
  pub record HandlerImpl : Type 0 where
    pub schema : Ty
    pub handle : State → Header → El schema → Outcome HandlerResult × State

  -- HandlerManager: `_handlers` as an association list.
  abbrev pub HandlerManager : Type 0
  HandlerManager = List (IdType × HandlerImpl)

  unfoldable pub find : IdType → HandlerManager → Option HandlerImpl
  find type [] = none
  find type ((id, h) ∷ handlers) = ite (id_discrete id type) (some h) (find type handlers)

  -- The handler that is there stays.
  unfoldable pub register_handler : IdType → HandlerImpl → HandlerManager → HandlerManager
  unfolding find
  register_handler type h handlers = elim (find type handlers) [
    | none ↦ (type, h) ∷ handlers
    | some old ↦ handlers
  ]

  -- HandlerRegistrator<Schema>, by the id that SchemaIdExtractor gives and the handler. The objects
  -- register in the order in which their constructors run, which C++ does not fix across files.
  unfoldable pub run_registrators : List (IdType × HandlerImpl) → HandlerManager → HandlerManager
  unfolding register_handler
  run_registrators [] handlers = handlers
  run_registrators ((type, h) ∷ registrators) handlers =
      run_registrators registrators (register_handler type h handlers)

  module _ (p : Platform) where
    -- HandlerImpl<Schema>::HandlePacket.
    unfoldable pub run_handler :
        HandlerImpl → State → Header → ReadStream → Outcome HandlerResult × State
    run_handler h st header rs =
        (read p h.schema (initial h.schema) rs, st) >>- λ (schema, rs') st'.
        h.handle st' header schema

    -- An unknown id is passed over.
    unfoldable pub handle_with :
        Option HandlerImpl → State → Header → ReadStream → Outcome HandlerResult × State
    unfolding run_handler
    handle_with none st header rs = (ok continue, st)
    handle_with (some h) st header rs = run_handler h st header rs

    -- The three versions of HandlePacket: with a header, with a stream, with bytes.
    unfoldable pub handle_packet_header :
        HandlerManager → State → Header → ReadStream → Outcome HandlerResult × State
    unfolding handle_with
    handle_packet_header handlers st header rs =
        handle_with (find (extract header) handlers) st header rs

    unfoldable pub handle_packet_stream :
        HandlerManager → State → ReadStream → Outcome HandlerResult × State
    unfolding handle_packet_header
    handle_packet_stream handlers st rs =
        (deserialize rs, st) >>- λ (header, rs') st'. handle_packet_header handlers st' header rs'

    unfoldable pub handle_packet : HandlerManager → State → List ℕ → Outcome HandlerResult × State
    unfolding handle_packet_stream
    handle_packet handlers st bytes =
        handle_packet_stream handlers st (record { bytes = bytes; position = 0 })
