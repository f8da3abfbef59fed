-- ===== src/Lib.antt =====
-- Verification of polkadot-light-client, a light client for Polkadot in C++: a model of the
-- program's own code under core/src and app/src, and theorems about it.
--
-- The program. `main` (app/src/main.cpp) parses the command line, reads a chain specification
-- (core/src/chain), builds a peer manager over its boot nodes (core/src/network), and a runtime
-- service (core/src/runtime), which loads the runtime of the genesis; then it runs the event loop
-- (core/src/runner). The peer manager keeps a table of peers by the events of libp2p and a timer,
-- and owns the GRANDPA, light and sync protocols. The runtime service can also ask a full node for
-- a runtime, by the light protocol. A stop handler (core/src/utils) stops the parts in the end.
--
-- Files and code:
--
--   Common          shared names, lists over native numbers, byte strings, and results
--   Utils.Hex       core/src/utils/hex.h, hex.cpp
--   Utils.Stoppable, Utils.StringConversion, Utils.Coroutine, Utils.MoveOnCopy
--                   core/src/utils/stoppable.*, string_conversion.*, callback_to_coro.h, move_on_copy.h
--   Chain.Spec      core/src/chain/spec.h, spec.cpp; Containers has the ordered sets and maps,
--                   Numbers std::from_chars, Load the loader, function by function, Getters the
--                   getters of the class
--   Network.PeerManager
--                   core/src/network/peer_manager.h, peer_manager.cpp; Table and State have the members,
--                   Start the constructors, Clock the manager with its timer
--   Network.Scale, Network.Grandpa
--                   core/src/network/scale, network/grandpa and network/common/roles.h
--   Network.Protobuf, Network.Light2, Network.Sync2, Network.Errors
--                   core/src/network/protobuf, light2, sync2 and common/errors.*
--   Network.Tasks   the coroutines of light2, sync2 and protobuf with their suspensions
--   Network.Incoming
--                   the handlers of streams that peers open: PeerManager::initProtocols and the
--                   start of each protocol
--   Network.Scale.Former
--                   core/src/network/scale_reader_writer.h, an earlier text that nothing includes
--   Runtime         core/src/runtime; Module, Executor and Service are its classes, and Concurrent
--                   has the loads of Service that wait at the same time
--   Runner.Timer    core/src/runner/timer.h, timer.cpp
--   Runner.Client   core/src/runner/client_runner.h, client_runner.cpp
--   App.Main, App.Logging
--                   app/src/main.cpp, app/src/logger.h, logger.cpp
--
-- A definition has the name of the function, type or member it models, in this language's
-- spelling, and stands in the module of its class; a C++ method of many steps is a function with a
-- helper for each loop or branch. The other modules hold proofs, named for what they prove, and
-- each Tests module runs the definitions on small inputs and applies the theorems to concrete
-- values.
--
-- How code is modelled. A Result is an outcome: a value, an error code, an exception that leaves
-- the call (thrown), or a step with undefined behaviour, such as a read past the end of a buffer
-- or a call through a null pointer (fault). An object is a record that its methods take and
-- return. What a method asks of libp2p is recorded in a list of calls, and what libp2p answers is
-- an argument; its callbacks, timers and tasks are events, which come in any order, each handled
-- whole, since all run on the thread of one io_service. A coroutine that waits for a callback is a
-- call that returns what the callback is given; where several wait at once (Network.Tasks,
-- Runtime.Concurrent) it is a tree of the questions it asks, and the answers come in any order.
-- The messages that the program logs are left out; the set-up of logging is modelled.
--
-- What is not under the repository's source is an argument with documented behaviour as named
-- laws: boost::algorithm (BoostLaws), zstd (ZstdLaws) and the SCALE library (ScaleLaws); each has
-- an instance among the tests, which shows that the laws can hold. The property tree of Boost,
-- libp2p's addresses, hosts and streams, the protobuf classes and Binaryen are arguments without
-- laws.
--
-- Numbers and bounds. A std::string, a ByteBuffer and a block hash are lists of bytes, a BlockHash
-- one of 32. The tick of the peer manager wraps at 2^64. A block number read from text must be
-- below 2^32. Members of GRANDPA messages are bounded by their widths, and arrays by their
-- lengths. vector::resize throws from 2^63 on, the code of the runtime is limited to 50 * 1024 *
-- 1024 bytes, and running out of memory is left out. Counters of connections are within the size
-- of the table, and the index of the stop handler's loop, an int, within 2^31 objects. Every loop
-- of the code goes over a list or down a number and is a structural recursion; the one loop that
-- counts rounds, the search of std::regex_replace in App.Logging, takes at least twelve characters
-- in each round, so that the length of its text is enough.
--
-- Not modelled. What is left of PeerManager::initProtocols makes objects of libp2p and keeps them,
-- and formatting of streams and identifiers is only for the log. The macros of
-- core/src/utils/move_copy.h and propagate.h have no logic of their own, and the copy assignment
-- of MoveOnCopy does not compile where it is used. The headers of results and bytes
-- (core/src/utils) are names of library types. asio, soralog and libp2p are outside the source.
-- The two wire descriptions are input of a generator.
pub mod App
pub mod Chain
pub mod Common
pub mod Network
pub mod Runner
pub mod Runtime
pub mod Utils
