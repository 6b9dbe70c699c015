-- ===== src/Lib.antt =====
-- RubetekIOS-CPP: the C++ headers of the framework, RubetekIOS-CPP.framework/Versions/A/Headers.
-- The modules here model the packet protocols of libnet/msw/proto, the buffer that they stand on,
-- the link protocols IHLP and IHMLP of libnet/rubetek/proto, the text codes of libnet/dawn/code,
-- and the controllers, projects and calls of the client, libnet/rubetek/client.
--
-- How the parts interact. The packers of proto/spp put length-prefixed packets into a buffer and
-- hand it to a callback; the unpackers take such packets out of a byte stream. proto/plain_train
-- numbers the packets of an accumulating packer and reports gaps. proto/train cuts blocks, each in
-- a wagon with a header, into packets of one size. proto/stream2blocks.hpp cuts a stream into
-- blocks of one size. The transceiver of rubetek/proto/ihlp owns a packer and an unpacker, and
-- adds answers and timeouts. The one of rubetek/proto/ihmlp numbers packets, keeps each one until
-- the other side has sent something, and can change from one link to another. The client's unit of
-- controllers gets links and packets, runs a state machine for each controller, and tells its own
-- owner what has changed.
--
-- Files, with paths below libnet:
--   Prelude        Boolean tests, lists measured by native numbers, bytes in memory (to_le, of_le),
--                  and Outcome: what a call ends in.
--   Range          msw/zzz/range/def.hpp: a range as the list of its items.
--   Buffer         msw/zzz/buffer/def.hpp: a buffer as cells and a size.
--   Dimension      msw/dimension/counter.hpp; Dimension/Trigger: trigger.hpp.
--   Spp            msw/proto/spp: pack.hpp and unpack.hpp; Spp/Sized their overloads by width,
--                  Spp/Unpacker unpacker.hpp, Spp/Packer packer.hpp, Spp/Accum accum_packer.hpp
--                  with proto/total_size_of_blocks.hpp. Spp/Parses is the parser's specification.
--   PlainTrain     msw/proto/plain_train: Wrapper and Unwrapper are the states of its two classes.
--                  uint_size, also in Train, is sizeof(uint) by msw/int.hpp: 4 or 8.
--   StreamBlocks   msw/proto/stream2blocks.hpp.
--   Train          msw/proto/train: headers.hpp, Train/Wrapper and Train/Unwrapper. Train/Transfer
--                  follows blocks through both.
--   Ihlp           rubetek/proto/ihlp: transceiver.hpp and timeouts.hpp.
--   Ihmlp          rubetek/proto/ihmlp: transceiver.hpp, Ihmlp/Async async_transceiver.hpp.
--                  Ihmlp/Network joins two of the queued ones by a connection that loses nothing;
--                  Ihmlp/Network/Start is how they begin, and Ihmlp/Network/Both
--                  two that begin at the same time.
--   Elastic        msw/proto/elastic_receiver.hpp: a client that asks for bytes. ThriftLink:
--                  rubetek/proto/thrift/transceiver.hpp, which is such a client, with
--                  msw/regibits/transform/byte_reverse.hpp.
--   Ihap           rubetek/proto/ihap/transceiver_base_new.hpp.
--   ThriftGeneral  rubetek/proto/thrift/general.hpp.
--   Base64         dawn/code/base64. Percent: dawn/code/percent_encoding.
--   Client         rubetek/client/controller: Client/Controller with Callbacks is controller.cpp,
--                  Client/Packets ihap_transceiver_new.hpp, Client/Unit unit.cpp; Client/Action is
--                  a call with state and exceptions, Client/Table an unordered_map, Client/Names
--                  one keyed by texts. Unit/Runs lists all that can happen to the unit.
--                  Client/CallbackService and Client/ProjectManager are rubetek/client/client.
--
-- How code is modelled. A function of the source keeps its name. A range, a buffer above Buffer
-- and a string are the list of their items; an object is a record of its members, and an operation
-- returns the new record and what the callbacks have received, in order. A callback returns and
-- does not call back into the object; in Ihlp it may throw, or send packets. An exception is
-- `thrown`, a failed MSW_ASSERT `aborted`; after either there is no state, but for Client, where
-- what was changed before an exception stays changed, and `dangling` is the use of an erased
-- element. Unsigned integers of w bytes wrap, as written out (% 256 ^ w),
-- but sizes of things in memory do not: with a length field of 4 bytes, an address space larger
-- than 2 ^ 32 is taken for granted. Time is an argument of the operations that read the clock.
--
-- Fuel. unpack and the unpacker take as fuel the length of the input, as every round but the last
-- takes a byte at least. accum_packer calls itself once after a flush, and stream2blocks once
-- after a full buffer: two rounds. Cutting blocks and add_wagon take the length of what they cut,
-- since a round takes a byte. dissect_payload takes twice the length of the payload.
-- process_taken_block of elastic_receiver.hpp takes the square of the length, as a round takes a
-- byte or asks for more. `exhausted` stands for the end of the fuel.
--
-- Not modelled: logging, the positions and validators of msw/zzz, overloads of ranges and buffers
-- for items of another type, the bit-level copies of msw/algorithm, and the other parts of the
-- framework: network and file input and output, the generated thrift code of imc, pugixml, and of
-- the client of rubetek all but its controllers, its calls for the application and its projects:
-- the controller link over them, its threads and timers.
pub mod Prelude
pub mod Dimension
pub mod Spp
pub mod PlainTrain
pub mod StreamBlocks
pub mod Train
pub mod Base64
pub mod Percent
pub mod Ihlp
pub mod Ihmlp
pub mod Elastic
pub mod ThriftLink
pub mod Ihap
pub mod ThriftGeneral
pub mod Client
pub mod Range
pub mod Buffer
