-- ===== src/Lib.antt =====
-- The A/B dyeing server: it decides which experiment configuration a user is given for each business
-- type of a request. The library models the server of src/, the generated code of its service, what
-- it uses of common/inutil, and more of that library, and proves what the parts and the whole promise.
--
-- The parts, and the files that model them (paths are from the root of the repository):
--
--   Handler, Handler/*    ABDyeingHandler of src/dyeing_handler.cc and .h: dyeing, DyeingLan,
--                         BatchDyeing, BatchDyeingLan, init, flushPolicy, flushFreshUserPolicy
--   Logic, Logic/*        DyeingLogic of src/dyeing_logic.cc: onDyeing and its four handlers
--   OnlineHash, .../*     DyeingOnlinePlugin of src/online_hash.cc: the hash policies
--   WhiteList, .../*      DyeingWhiteListPlugin of src/white_list.cc and .h
--   FreshUser, .../*      DyeingFreshUserPlugin of src/fresh_user.cc: the users of the day
--   PushUserType, .../*   DyeingPushUserTypePlugin of src/push_user_type.cc: the classes of users
--   FreshKafka, .../*     DyeingCurrentFresh and KafkaThread of src/fresh_kafka.cc: the queue of new
--                         users, the messages that fill it, the receiving loop, and the halves of
--                         its calls between their locks (Interleave)
--   Timer, Timer/*        the daily timers FreshThread and ClearThread of both files
--   KafkaConsumer, .../*  KafkaConsumer of src/kafka_consumer.cc
--   Server, Server/*      the handler and the queue together, under any sequence of reloads,
--                         messages and clearings
--   Proto, Proto/*        the messages of proto/ab_dyeing.thrift as proto/gen-cpp/ab_dyeing_types.h
--                         holds them, and their serialisation in ab_dyeing_types.cpp (Request,
--                         UidRequest, Answer)
--   Service, Service/*    proto/gen-cpp/ABDyeingService.cpp and .h: the arguments and results of the
--                         calls, the client (Client), the processor (Processor), and the handler
--                         behind it (Serving)
--   Thrift, Thrift/*      what that code uses of the Thrift library, as a parameter, and its promises
--   Mysql, Qconf          the calls of INV_Mysql and INV_QConfig (common/inutil)
--   Application, .../*    INVApplication::start of common/inutil/util/inv_application.h, which
--                         src/main.cc calls: the settings (Chosen), the start (Started), from the
--                         command line to a reply (Serving), and over the wire (Remote)
--   Argv, Argv/*          INV_Argv of common/inutil/inv_argv.cpp: the command line
--   ConfigFile, .../*     INV_ConfigDomain and INV_Config of common/inutil/inv_config.cpp: escapes and
--                         parameters (Escape, Keys), a line (Line), the tree of domains (Tree), the
--                         parser of a file (Reader), paths and get (Lookup)
--   MemQueue, MemQueue/*  INV_MemQueue of common/inutil/inv_mem_queue.cpp and util/inv_mem_queue.h: the
--                         queue in shared memory, with its bytes and its journal (Ring, Read and Laid:
--                         the bytes; Fifo, Transfer, Refine and Counts: against a list; Crash: the
--                         journal; Lost: what isFull lets through)
--   Util, Util/*          INV_Util::sepstr of common/inutil/util/inv_util.h, INV_Util::trim of
--                         common/inutil/inv_util.cpp, and the decimal numbers of the C library
--   Xxtea, Xxtea/*        INV_xxTea of common/inutil/inv_xxtea.cpp: a round (Round), the rounds
--                         (Rounds), words and bytes (Packed), a text (RoundTrip)
--   IpSearch, IpSearch/*  INV_IP of common/inutil/inv_ipsearch.cpp: the table (Loaded), its search
--                         (Search)
--   Base, Outcome         lists, strings as bytes, association lists; results
--   Tests, Tests/*        runs on concrete inputs
--
-- The program reads the command line and the configuration file and starts the handler, which reads
-- the file again. A request reaches the handler on a worker thread; the handler finds the logic of
-- the thread, which asks the white list first, then the class of the user (the push table, the day's
-- table, the queue) and the hash policies of the product of that class. The timers replace each plugin
-- by a new one that they load, or keep the old one; messages of Kafka add users to the queue.
--
-- How the code is written down:
--
--   * Strings are lists of bytes. Integers are natural numbers with the wrap-around written out: a
--     uint32_t is below 2 ^ 32, a time in microseconds below 2 ^ 63.
--   * Outcome is the result of code that can throw: done, throws, or undefined where the code leaves
--     what C++ defines (an index out of range, an assertion inside a library).
--   * A pointer to a domain of a configuration file is the path of names that leads to it from the
--     root; domains are only added while a file is read, so a pointer stays valid.
--   * The memory of INV_MemQueue is a function from the distance to its area to a byte. A copy that
--     would leave the area is undefined. Its journal is the list of the entries that are in use.
--   * A TProtocol is a record of functions: what each call of write puts on a transport of bytes,
--     and what each call of read takes off it. The loop over the fields of a struct has fuel for the
--     bytes that are there; a field takes one at least, so it is enough.
--   * std::map and std::unordered_map are association lists; the order of an unordered map is never
--     observed. The map of the queue by time is kept in order of time, as the code walks it.
--   * The outside is a parameter: the configuration service (Qconf), the database (Mysql), the hash
--     CityHash64WithSeed (city_hash), the files (a text for each name that can be opened), the JSON
--     parser (parse), the replies of librdkafka (RdInit, Poll), the clock and the hours of localtime.
--   * The loop of sepstr runs on fuel, one more than the length of the string; it takes a piece in
--     each round and moves past a separator, so it never runs out.
--   * The rounds of xxtea_decrypt have fuel for 59: encrypt makes 58 at most, and the sum comes to 0
--     after as many. The search of INV_IP has one round more than there are elements. Lengths that
--     both store as an int are cut to 32 bits; a sum of ints that overflows is undefined.
--   * The product 24*3600*1000*1000 of DyeingCurrentFresh::clear overflows an int, which C++ does not
--     define: what the build makes of it is a parameter, and the theorems hold for any.
--
-- Not modelled: the calls of INV_Config that the server does not use; INV_ShmQueue, the lock around
-- INV_MemQueue; of INV_IP the single object with its lock, and addresses as texts; log lines; in the
-- generated code the counts of bytes, the swaps, comparisons and fingerprints, and the event handler;
-- the Thrift library, with the transports; the start of threads; in Server a call of the queue is one
-- step and the swap of a shared_ptr is atomic; RebalanceCb, which only calls librdkafka; the rest of
-- common/inutil; the clients.
pub mod MemQueue
pub mod Xxtea
pub mod IpSearch
pub mod Application
pub mod Argv
pub mod Base
pub mod Outcome
pub mod Util
pub mod Qconf
pub mod Mysql
pub mod FreshUser
pub mod PushUserType
pub mod Thrift
pub mod Service
pub mod Proto
pub mod Logic
pub mod Handler
pub mod FreshKafka
pub mod Timer
pub mod KafkaConsumer
pub mod Server
pub mod WhiteList
pub mod OnlineHash
pub mod ConfigFile
pub mod Tests
