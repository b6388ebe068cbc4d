-- ===== src/Lib.antt =====
-- FastDCS, a distributed computing system: masters, of which one is the primary, hand tasks to workers
-- and collect the results. The masters of a group know each other by the configured list of their
-- addresses, in whose order messages go round (election, announcement, questions). The tasks stand in a
-- table with lease times; a task that is handed out is leased, and its result counts while the lease runs.
-- Bytes pass between threads through a ring buffer per socket and direction.
--
-- Parts and files:
--   Common            Booleans and numbers, lists, the integers, byte strings (`Text`), maps in the order
--                     of their keys (std::map), and memory blocks
--   Messages          src/server/tracker_protocol.proto and the settings of src/base/common_define.h
--   Protofile         src/server/protofile.cc: ReadRecord and WriteRecord
--   Strings           src/utils/split_string.{h,cc}, join_strings.h and string_codec.cc;
--                     Helpers is string_util.cc
--   SignalingQueue    src/server/signaling_queue.cc; Ring is the copy round the end of the ring, Inv the
--                     valid queues, Fifo the buffer to compare it with, Producers the end of producers
--   Connector         src/server/connector.cc: Send and Receive, between a queue and a socket;
--                     below Receiving, Parts has calls of Receive one after the other
--   Enviroment        src/server/enviroment.cc; Leases, Inv, Clock and Moves are about its table
--   Tracker           src/server/tracker.cc; State has the fields and the outcomes of a call, Sockets
--                     the connections, Masters the ring of masters, Events the socket thread,
--                     Callbacks the event loop, Sends the send events with their connectors
--   Master            src/server/master.cc; Tasks has GetIdleTask, TaskCompleted and the copies of
--                     tasks, Circle what goes round the ring, Process the handler of messages
--   Worker            src/server/worker.cc
--   Config            src/base/config_file.cc in File and Iterate, and LoadConfig of
--                     src/server/tracker_main.cc in Settings; Tree is the search tree that they use
--   Varint32          src/base/varint32.cc
--   Epoller           src/server/epoller.cc; Agree is its table and what the kernel watches, Loop the rounds
--                     of the event loop, Closed the end of a descriptor, Stale an element without a watch
--   SkipList          src/base/skip_list.cc; Chains is the order of its nodes, Find the search,
--                     Way, Insert, Inserted and Added the insertion
--
-- A C++ function `DoThis` is `do_this` here; where a constructor or another class has the name, `_call`,
-- or the class stands in it: `election_call` is Master::Election, `get_idle_task_call` is
-- Master::GetIdleTask, `master_protocol_process` is Master::ProtocolProcess.
--
-- A function of a server takes the state `Tracker` and gives a `Run`: it returns with a new state, or
-- it ends the process (a CHECK, a NULL socket), goes round a loop for ever, or sleeps for room in a
-- buffer. `World` holds what is outside: which connections are answered, the clock, protobuf's two
-- directions, random numbers, the hash ring of src/libconhash, and `erased`: what a task's entry in the
-- table holds when it is read after its erasure, as Enviroment::TaskCompleted does, if the read does not end the process. It stays the same in one
-- step. Mutexes are
-- held for whole calls, so a call is one step; a wait in the signaling queue ends a step, and `run` takes
-- any sequence of such steps.
--
-- Fuel: FindNextMaster's `while (true)` has a round for each master of the group and one more, which is
-- enough where the group holds the server's own address once; it never ends where the group does not
-- hold it and no connection is made. The loop of Receive takes a byte at least in each round, so the
-- number of bytes, at most 4096, is enough; a round that took none would go on for ever. A character of a configuration
-- file takes at most three rounds of config_parse's loop; a file is a list of chunks with its end or a read
-- error behind them, and behind an error the loop never ends. Each round of StringReplace but the last leaves
-- less of its text, if the text to look for is not empty. A search of the skip list takes a round for each
-- node and each level at most.
--
-- Numbers: sizes and positions of the ring are natural numbers, for queues of at most 2 ^ 30 bytes;
-- times are exact integers, which an `int` holds until 2038; descriptors are integers, -1 for none.
--
-- The event loop: callbacks are a parameter, and an element that a callback deletes and makes anew counts
-- as the one before. The kernel's side of epoll is a map, by what Linux documents of epoll_ctl and close;
-- that the kernel refuses a watch for a reason of its own is an argument of the calls.
--
-- The skip list: comparison callbacks and the random numbers of its levels are parameters, and malloc
-- succeeds. A level is an int8_t, which wraps after 128 low numbers in a row; here it does not.
--
-- Not modelled: threads, signals, sockets, logging, MySQL, the generated protobuf code, the demonstration,
-- and the copies of other projects: libconhash, the hash functions and the tree of src/base/config_bst.cc,
-- a copy of GNU libavl's, which is an interface of the configuration.
pub mod Common
pub mod Messages
pub mod Protofile
pub mod Strings
pub mod SignalingQueue
pub mod Connector
pub mod Enviroment
pub mod Tracker
pub mod Master
pub mod Worker
pub mod Config
pub mod Varint32
pub mod Epoller
pub mod SkipList
