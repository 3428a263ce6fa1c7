-- ===== src/Lib.antt =====
-- A model of YAMemcached, a memcached server whose threads share one hash table, and theorems
-- about its parts.
--
-- The server's threads each run an epoll loop over sessions (src/ServerThread.cpp,
-- src/Session.cpp). A session hands the bytes that it read to the text protocol
-- (src/RequestProcessor.cpp), which finds the command with a table-driven matcher
-- (src/FastSubstringMatcher.h), reads the numbers with src/Common.cpp, and calls the methods of
-- the shared hash table (src/LFLRUHashTable.h). A datagram goes to the binary protocol
-- (src/YAMBinaryProtocolProcessor.cpp), which calls the same methods and writes its reply over the
-- request. A thread's pool of sessions is a queue (src/LFSPSCQueue.h).
--
--   * Base: shared names, tests on numbers, lists, arrays as functions, and `Outcome`, what a run
--     of C++ comes to: a value, `abort()`, an access out of bounds, or a loop that
--     does not end with what this thread does.
--   * LaneQueue (src/LFSPSCQueue.h): push and pop are `push`, `pop`; one round of their loop is
--     `push_round`, `pop_round`. Spec is the specification by two lists, Views and Refine the
--     refinement, Items what is in the queue up to order. Accesses has the two one access to shared
--     memory at a time, Interleaved the runs of a producer and a consumer, Sees, Kept and Between
--     what holds in them, Alone the runs of one side by itself.
--   * Table (src/LFLRUHashTable.h): State has the data, Slots the locks of the slots, Probe the
--     searches and the removals from the slots, Recent the lists of recent use, Expiry the expiry
--     times, Methods, Locked and Walk the public methods. Range, Chain, Release, Touch, Move and
--     Agree carry the proofs of Lookup, Writes and Removals; Faults has what goes wrong, and Destroyed
--     the destructor.
--   * Number (src/Common.cpp): `atous`, `atoui`, `atoull` and `itoa`; Search has `strnstr`.
--   * Request (src/RequestProcessor.cpp, src/Common.hh): Info has the request, Matcher the match,
--     Solver (src/FastSubstringMatcher.cpp) the spots for a list of keywords, Solved those of the
--     commands of src/Server.cpp, Header `parseMemcachedHeader`, Commands and Process
--     `processRequest`, Store the methods that it calls, Out the output buffer. Parse, Room,
--     Replies, Rounds, Ahead and Waits have the proofs, Stored and Tickets those of commands on the
--     table.
--   * Session (src/Session.cpp, src/Session.hh): State has the session and its socket, Input the
--     loop of `recv`, Output the loop of `send`, Process `Session::process`. Reading, Sent, Served,
--     Flow, Handled and Invariant have the proofs; Postponed and Forgotten have what goes wrong. The
--     socket is the list of the results of the calls of `recv` and `send` to come.
--   * Thread (src/ServerThread.cpp, src/Server.cpp): State has a thread with its sessions and
--     sockets, its constructor and `addSession`, Loop the loops over the backlog and the events,
--     Datagrams the datagrams and a whole cycle, Accept the hand over of an accepted socket. Pool
--     and Release have the proofs. A pointer to a session is its number.
--   * Program (src/YAMemcached.cpp): the options, the table that `main` makes of them, and the signals.
--     Size has the proofs.
--   * Binary (src/YAMBinaryProtocolProcessor.cpp and .h): Header has the header, Commands the
--     commands and `processBinaryRequest`. Frames, Answers and Whole have the
--     proofs, and Quiet that of SETQ on the table.
--
-- The queue's two sides interleave, one access at a time, in Interleaved, where each access takes
-- effect at once. Elsewhere an operation is run with no other thread between its accesses, and a
-- retry that waits for another thread is `spin`. A machine word keeps its wrap-around where the
-- code can come to it. The fuel of a search along the slots is 247 rounds, one more than there are
-- lock depths; that of the digits is 20, as many as 64 bits have; that of the growth of a buffer is
-- 64 doublings, as many as a size can take; the loop of `processRequest` has four rounds; a push or
-- a pop, with no other thread between its accesses, has one; the solver of spots has one level for
-- each keyword; the further keys of a line have one for each byte that is left. The depth is
-- checked in each round of a search, so its rounds never run out. The loop that closes the hole of
-- `removeFromHashKey` has 494, two at each depth, and is `spin` where they do not end it. The
-- theorems below show the fuel enough for the searches of `get`, that loop, the digits, the
-- replies, the queue and `processRequest`.
--
-- Not modelled: the system calls, whose results are lists or arguments, the opening of the sockets
-- and the start of the threads, `getopt` and `atoi`, which are a list and a parameter, the copies of
-- other projects (the string, the hash function, the tree), which are lists of bytes, a parameter,
-- or not used. The keys' equality and hasher are parameters of the table. The copy constructor, the
-- assignment and swap of the table are left out: nothing uses them, and they do not compile where
-- they are used. `removeExpiredItems` does not compile either, and nothing calls it; Expiry has it
-- with `->second` for the `.second` that it takes of an iterator.
mod Base
pub mod LaneQueue
pub mod Table
pub mod Number
pub mod Request
pub mod Binary
pub mod Session
pub mod Thread
pub mod Program
