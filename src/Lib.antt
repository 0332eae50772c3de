-- ===== src/Lib.antt =====
-- BTRx, a peer of a file sharing network in C++: its core, modelled and proved.
--
-- A peer (node/node.cpp) owns one ObjStore, the pieces of the shared file, and one NbrMap, its
-- neighbours; a thread for each connection (handler/handler.cpp) works on both. The ObjStore
-- keeps a Bfield, one bit to a piece, and a Cache in front of the file. The NbrMap keeps a second
-- Bfield in which the connections mark the pieces that they have spoken for, and two threads of
-- its own take neighbours out of the choked ones. Messages (pkts/pkts.cpp) become JSON and travel
-- as BSON. The process (entrypoint.cpp) reads two files of settings, opens the log (logger) and
-- makes one node.
--
-- Which file models which part:
--   Entrypoint entrypoint.cpp, function for function: start is main before its two deletes, and a loop
--              is read_peer_lines or read_conf_lines over the lines. Entrypoint/PeerTable and
--              Entrypoint/Settings have the theorems.
--   Node       node/node.cpp, include/node/node.h: create_node is the constructor, a loop to a function
--              (connback_loop, connect_any, accept_rounds, join_threads). Node/Pieces, Node/Mesh,
--              Node/EarlyThreads and Node/Waiting have the theorems.
--              Node/Threads is what its threads make of the store and the map that they share:
--              Node/Threads/Process interleaves their rounds, Node/Threads/Made is the constructor's
--              own part, and Node/Threads/Sound, Node/Threads/Received, Node/Threads/Exclusive
--              and Node/Threads/Waiting have what is kept.
--   Logger     logger/logger.cpp, include/logger/logger.h: a write_ function to an overload of
--              write_msg; Logger/Lines has the theorem. LogChild is logger/logchild.cpp, whose bodies of
--              srvloop and pretty_p are commented out.
--   Bfield     objstore/bfield.cpp, include/objstore/bfield.h. RdLock is rd_lock, flip(int, int) is
--              flip_at, flip(int) is flip; the constructors are default_bfield, copy_bfield,
--              zeroed_bfield and create_bfield. Bfield/Has reads the bytes as a set of pieces,
--              Bfield/Locked is the lock discipline, Bfield/Members and Bfield/Seeding the theorems,
--              Bfield/Steps what one call does, whatever the locks do.
--   Cache      objstore/cache.cpp, include/objstore/cache.h. update_cache is split at its branches
--              into promote, add_entry and evict, and get into cached_buf and fetch. Cache/Index has
--              the invariant, Cache/Stale how it breaks, Cache/RoundTrip what is read back,
--              Cache/Capacity and Cache/Reachable how much it holds over its life.
--   ObjStore   objstore/objstore.cpp, function for function; ObjStore/Pieces has the theorems, ObjStore/Steps
--              its operations as chains of calls.
--   NbrMap     nbrmap/nbrmap.cpp, include/nbrmap/nbrmap.h, a loop to a function (opt_unchoke_loop,
--              collect, unchoke_loop, earmark_bits, earmark_bytes). NbrMap/Claims describes the loops
--              of earmark without locks, NbrMap/Earmark, NbrMap/Interleaved, NbrMap/Registry,
--              NbrMap/Unchoking, NbrMap/OptUnchoking, NbrMap/Ranking and NbrMap/Choking have the theorems.
--              NbrMap/Steps is the map call by call, with NbrMap/Steps/Earmark, NbrMap/Steps/Timed,
--              NbrMap/Steps/Progress and NbrMap/Steps/Grants. NbrMap/Timers is the two handlers and the
--              destructor, with NbrMap/Timers/Idle and NbrMap/Timers/Finish.
--   Pkts       pkts/pkts.cpp, include/pkts/pkts.h: a to_json and from_json to a message, named after
--              it. Pkts/Wire has the theorems.
--   Handler    handler/inhelper.cpp, handler/outhelper.cpp and the helpers of handler/handler.cpp.
--              Handler/Loop is cli_handler: a function to a case of its switch, dispatch the switch,
--              turn a round of the loop, serve the loop. Handler/Requests, Handler/Loop/Choking,
--              Handler/Loop/Timeouts, Handler/Loop/Framing, Handler/Loop/Greeting,
--              Handler/Loop/Session, Handler/Loop/Flags, Handler/Loop/Claiming and
--              Handler/Loop/Transfer have the theorems. Handler/Stores and Handler/Loop/Shared show what a
--              connection does to what it shares as chains of calls, by the case in its Cases and Claims.
--   Prelude    helpers: C++ outcomes (Prelude/Ends), bits, association lists, list lemmas.
--   CString    strncpy, snprintf and the decimal conversion of the C library; CString/Tokens is getline,
--              strtok and strtol, CString/Words and CString/Decimal what they make of words and numbers.
--   Host       concrete locks, a file in memory, a socket, a network and a JSON library, for the examples
--              that stand beside each part.
--
-- State is passed on explicitly, and a call ends in an Outcome: it returns, leaves the process by
-- _exit, throws, or runs into undefined behaviour (an index out of range, a null or deleted
-- pointer, an overflow of int). A message to the log does not show. Pointers to an Access or a
-- Nbr are places in a list of what was allocated. A loop is recursion on its sequence or on the
-- rounds that its bounds leave. The endless loops of opt_unchoke, cli_handler and the two threads
-- of NbrMap take a number of rounds and give `none` when they are used up: enough are as many as
-- it takes until the connection or the thread ends; the loop of opt_unchoke ends when a draw hits
-- a waiting neighbour, and never while nobody is choked. The draws of
-- rand, and what the other threads do during a sleep, are functions of the number of the call.
--
-- Parameters, since their code is not in the repository or belongs to another project: the POSIX
-- locks (Rwlock, Mutex), the file calls (Files), the socket calls (Sockets), the set-up of
-- connections (Net), the output streams (Streams), system, and the JSON library of
-- include/json/json.hpp (Json). What is relied on of them is a record of hypotheses: IsFree and
-- IsOpen for the locks, IsLawful for JSON, IsBson for its binary form, HasArrived for a socket,
-- IsReliable for a network where every call succeeds.
--
-- Bounds: bytes are numbers whose bit operations are taken % 256, counters of 32 bits wrap at 2 ^
-- 32, the position of a piece in the file is undefined from 2 ^ 31 on. Numbers of type int are
-- taken to be non-negative; what strtol gives becomes 32 bits of them. decimal makes at most ten
-- digits, enough below 2 ^ 32.
--
-- Not modelled: generated code (include/logger/logmsg.pb.h), the JSON library, and the release of
-- memory (free, freeaddrinfo). The calls of write_msg in the other parts are left out there,
-- since nothing reads the log back. A thread that a node starts is recorded
-- with its arguments, and cli_handler run on them is a definition of its own. The threads of a
-- process are interleaved in two ways: call by call, where each call of a field, of the cache or of
-- the map and each write to a neighbour is one step (Handler/Loop/Shared), and round by round
-- (Node/Threads/Process); a race inside one of these calls is not modelled. cli_handler by itself takes
-- the store and the map by value, as they are when its thread starts: what other threads make of them
-- meanwhile shows in the two step relations, not in it. The joins of the destructors ask a parameter
-- which threads end; that the process ends while they wait, by _exit or an exception in another
-- thread, is not modelled in main, but is the Outcome of that thread. The order of an unordered map
-- shows only in the order of the requests that are sent; it is that of the list here.
pub mod Prelude
pub mod Rwlock
pub mod Mutex
pub mod Bfield
pub mod CString
pub mod Files
pub mod Cache
pub mod ObjStore
pub mod Json
pub mod Pkts
pub mod NbrMap
pub mod Host
pub mod Sockets
pub mod Handler
pub mod Streams
pub mod Logger
pub mod LogChild
pub mod Net
pub mod Node
pub mod Entrypoint
