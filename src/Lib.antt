-- ===== src/Lib.antt =====
-- grit: transactions over several databases.
--
-- The processes are the application (transaction/app), the entity services
-- (transaction/entity_service), the database services with their transaction manager Dbtm
-- (transaction/dbservice), the global transaction manager (transaction/gtm), and the log store Dbtl
-- with its log player (transaction/dbtl). They exchange the messages of flatbuffer/net.fbs. An
-- application gets an id and the list of servers from the global manager; an entity service sends
-- the sets that a transaction reads and writes to its database service, which asks the log store
-- for a number, checks the keys against those written before, and, where several services are
-- concerned, asks the global manager whether any of them met a conflict.
--
-- Files and what they model:
--   Common          tests on numbers, lists, faults, maps, 32-bit integers, strings of the C++ library
--   Net             flatbuffer/net_generated.h and base/headerCmd.h: messages and command codes;
--                   Net/Wire the tables that they are written to and read from
--   TimeWheel       base/timeWheel.h: add_timer, del_timer, tick, take_all_timeout; TimeWheel/Owners
--                   and Ledgers the deletion of the timers; TimeWheel/Thread init
--   Hash            base/hash.h: Mhash with insert, rehash, exist, del_less_than
--   Gtm             transaction/gtm: get_txid, judge_conflict, init, on_message; Gtm/Runs the manager
--                   over any sequence of messages
--   DbService       transaction/dbservice/dbservice.h, dbservice.cc: the state, get_read_write_set,
--                   ret_result; DbService/Dbtm dbtm.h, dbtm.cc; DbService/Handler dbservicemain.cc;
--                   DbService/Runs the service over any sequence of events
--   Dbtl            transaction/dbtl/dbtl.h, logplayer.h, logplayer.cc: the state, LogPlayer, ret_result;
--                   Dbtl/Store dbtl.cc and dbtlmain.cc; Dbtl/Runs both over any sequence of inputs
--   EntityService   transaction/entity_service: forward, solve, ret_result, on_message
--   App             transaction/app: add and its parser, commit, start_tran, both handlers
--   ThreadPool      base/threadPool.h: the moves of the workers, enqueue, the destructor
--   ConfigManager   base/configManager.h, configManager.cc: init
--   Singleton       base/singleton.h: getInstance, destroyInstance
--   MyDb            base/mydb.h, mydb.cc: the connection to the local database
--   System          several processes together: the start of a transaction (Start), the agreement of
--                   its services (Agreement), its log and its success (Commit), its number
-- The files below each of these prove its properties, and its Tests evaluate it.
--
-- Conventions. State is a record that is passed on. An operation that can crash or throw returns an
-- Outcome: a value, or the fault after which C++ promises nothing. `int` is the number below 2 ^ 32
-- with the same bit pattern. A connection is a number, and what is sent on it is appended to
-- `outbox`. Pointers to transactions are addresses in a heap, so that a deleted transaction can be
-- told from a living one. std::hash is a parameter.
--
-- Bounds and fuel. `rehash` and `insert` of Mhash call each other; the fuel bounds that nesting, and
-- 17 is enough since each level takes the next of 17 primes: a call that runs out of fuel reads past
-- the end of that array first. The loop of `take_all_timeout` has as many rounds as the code gives it.
--
-- Not modelled: the bytes of a message, which are the work of the library flatbuffers (Net/Wire takes
-- it as an interface; the other files take a message to arrive as it was built); the verifier
-- functions and the functions Create...Direct of net_generated.h, which nothing calls; sockets, event
-- loops and logging; in DbService and Dbtl, the interleaving of a task with messages and other tasks;
-- the answers of the local database and the file system, which the code only logs; the functions
-- main; the libraries under third_part.
mod Common
pub mod TimeWheel
pub mod Hash
pub mod Net
pub mod Gtm
pub mod DbService
pub mod Dbtl
pub mod EntityService
pub mod App
pub mod ThreadPool
pub mod ConfigManager
pub mod System
pub mod Singleton
pub mod MyDb
