-- ===== src/Lib.antt =====
-- re-bacs-env: reflection, serialization and networking for C++ programs.
--
-- The parts, and the files that model them. Paths in the repository stand first.
--
-- * bpacs/bpacs/bpacs.hpp, in Bpacs: the fields of a class by index. BP_DEFINE_REFL_FIELD is
--   define_refl_field, and iterate_fields and iterate_object keep their names. A template that is
--   specialized is found by a lookup in the list of the specializations.
-- * plakpacs/plakpacs/plakpacs.hpp, in Plakpacs: values in byte streams. Plakpacs/Types has codes for
--   the C++ types that the templates distinguish and the values of each; Streams has write_stream and
--   read_stream; Appenders has the two container_appenders; Serializer has serializer and every
--   binary_walker of the file. The template specialization that C++ picks is the clause for the code.
--   Format is the wire format on its own, against which reader and writer are proved; Format/Versions
--   is about classes that get further fields.
-- * bacs/bacs/bacs.hpp, in Bacs: messages with a size prefix on a stream socket. async_write_sp,
--   async_read_sp, async_read_sp_loop and async_accept_loop keep their names, and a handler is a
--   function of what it is called with and of the world in which it runs. Bacs/Asio is boost.asio as
--   the code uses it, a parameter: its record says what a write and a read without failure have done.
--   Bacs/Workers has io_worker and io_worker_pool, whose io_context is the parameter IoContext.
-- * gspp-net/gspp/stream_client.hpp, in Gspp/StreamClient: Send is send, CloseSocket is close_socket, the
--   handler of a write is on_written, StartReceiveLoop is start_receive_loop, over Bacs. The children
--   Writing, Receiving and Sessions are about one client, the last with a relation between the bytes
--   that come in and what the callbacks do; Hooks is about a hook that throws, and Transfer about two
--   clients at the ends of a connection.
-- * gspp-net/gspp/datagram_connection.hpp and datagram_client.hpp, in Gspp/DatagramConnection: SendAsync
--   is send_async, RecvLoopAsync is recv_loop with the constructor's handler on_receive, over the
--   completions in their order, and recv_loop_async on the parameter DatagramSocket. Transfer is about
--   a packet on its way to the peer's handler.
-- * gspp-net/gspp/packet_handlers.hpp, in Gspp/PacketHandlers: RegisterHandler is register_handler, and
--   the three versions of HandlePacket are handle_packet, handle_packet_stream and
--   handle_packet_header; a packet's schema is read by Plakpacs. HandlerRegistrator is
--   run_registrators, whose list is in the order in which the static objects are constructed.
--   Robustness is about packets with any bytes.
-- * gspp-net/gspp/dual_connection.hpp, in Gspp/DualConnection: the function that SetupStreamClient gives
--   to the stream client is on_packet; handlers and callbacks may throw and change the connection.
--   on_packet_in is the same function with the GSPP_DEBUG macros.
--   StartReceiveLoop is start_receive_loop, over StreamClient's; EndToEnd joins it with a
--   HandlerSystem and with the client at the other end, and ShortPackets with a HandlerSystem that gets
--   too few bytes. LifeCycle is the relation of all that can happen to a connection from several
--   sides, in any order. Exceptions is about handlers that throw.
--   The base class Componentable is a part of what `app` stands for.
-- * gspp-net/gspp/componentable.hpp, in Gspp/Componentable: the map from types to components.
-- * bpjson/bpjson/bpjson.hpp, in Bpjson: values in JSON. json_serializer's functions keep their names, and
--   the record JsonTraits is json_traits, whose operations are those of a JSON library. Bpjson/Settings
--   is serialization_settings, and Bpjson/StdMap what the walker of std::map does with the map. RoundTrip,
--   Versions, Missing, Errors and Safety are about what comes back, other versions of a class, missing
--   fields, exceptions, and any JSON.
-- * bpjson/bpjson/nlohmann_traits.hpp, in Bpjson/Nlohmann: json_traits for nlohmann::basic_json, which
--   is the parameter BasicJson; Nlohmann/Small is a small JSON library for which its laws hold.
--
-- Prelude passes on the libraries' names, and has lists, Boolean tests and the outcomes of C++ code:
-- a value, an exception, undefined behaviour (fault), no end (diverges), or a template that does not
-- compile (ill_formed).
--
-- Bounds and fuel. Bytes and characters are numbers, size_t has 64 bits, and sizes are converted to
-- the prefix's type with `%`. How C++ lays out numbers in memory is the parameter Platform, with
-- Plakpacs/Platform/LittleEndian as an example. Recursion over templates runs on one unit of fuel more
-- than the largest index of a field. The loop that reads a string runs on one unit more than the
-- buffer's bytes, since each round takes one. The receive loops take their fuel as an argument, a unit
-- for each message, and recv_loop_async one for each receive.
--
-- Not modelled: PacketSerializer, which is only declared, is specialized by the library's users, and is a
-- parameter. A mutex makes an operation one step, and is not a part of the state. Of std::thread there is
-- what join does to another thread, and of a thread's run that it returns. Memory is always there.
-- Default member initializers of classes are modelled for bpjson alone, and there for the types that
-- the JSON library converts itself. The destructor of DualConnection is implicit and left aside.
pub mod Prelude
pub mod Bpacs
pub mod Plakpacs
pub mod Bacs
pub mod Gspp
pub mod Bpjson
