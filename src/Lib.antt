-- ===== src/Lib.antt =====
-- Akkon: a server that keeps identifiers (SHA-256 digests) in SQLite databases and answers whether
-- it knows one, over HTTP and over WebSocket.
--
-- The parts of the program and the modules that model them. Paths are the repository's.
--
-- Base: lists, texts (a text is the list of its bytes), the 64-bit `std::size_t` with its
-- wrap-around written out, the bitwise operations of bytes, and tests on numbers.
-- Security: src/security. `LockdownState`, and in Security.Lifecycle `LifecycleManager` with a
-- round of its thread.
-- Memory: src/memory. Memory.Arena is `ArenaAllocator`: the buffer is an address and a function from
-- offsets to bytes, `make`, `allocate`, `reset`, `verify` and `check_access` are its operations, an
-- exception is a `Violation`, and the lockdown state that the last two may change is passed along.
-- Memory.Arena.Layout, Invariant and Safety hold the lay-out of the blocks, the invariant, and the
-- steps of a program that uses an arena. Memory.Stl is `ArenaAllocatorSTL`, with `std::malloc` as a
-- parameter, and Memory.Manager is `MemoryManager`, an association list from domains to arenas.
-- Crypto: `Hash` of src/crypto/Hash.cpp. Crypto.Pad is the padding, Crypto.Sha256 the schedule, the
-- rounds and the digest, Crypto.Hex its text, and Crypto.HexValue reads it with `std::stoull`.
-- Index: src/index. Index.Bloom is `BloomFilter`, whose bit positions are the digest's first seven
-- words modulo the size; Index.QueryEngine is `QueryEngine`, with the `std::unordered_set` as a list.
-- An exception of the filter is `none`, and so is `hash` of a filter without bits, which divides by
-- zero.
-- Network: src/network. Network.Frame is the codec of
-- src/network/protocols/WebSocketHandler.cpp: `encode_frame`, `decode_frame` and `decode_frames`,
-- where `length_error` is the exception that an impossible payload length raises, and
-- Network.Frame.Wire is RFC 6455's own description of a frame. Network.Sha1,
-- Network.Base64 and Network.Handshake are the rest of that file, and Network.Http is
-- `HttpHandler` and `AkkonProtocolHandler`. Network.Server is `Server` with the
-- queue of its `ThreadPool`: one round of the loop of `start` is `iterate`, what `poll`, `accept` and
-- `recv` answer is an argument, a worker's step is `take_task`, and `post` is what a handler calls.
-- Network.Server.Places interleaves rounds, workers and handlers in any order.
-- Db: src/db. Db.DataStorage is `DataStorage`, over SQLite as a parameter: a database type, opening
-- one, one INSERT and the identifiers that a SELECT gives.
-- Shell: src/shell. Shell.ArgumentRegistry is `ArgumentRegistry`, Shell.Options is `Shell::run` up to
-- the point where it opens the databases, with `std::stoi` as a parameter, and Shell.Databases the
-- rest of it. Shell.ArgumentParser is `ArgumentParser`.
-- Construction: src/construction. Construction.SqlText and Construction.Uuid are `escapeSqlString` and
-- `generateUUID` of Utils.cpp. Construction.MasterDb is `MasterDB`: its SQL texts, and in
-- Construction.MasterDb.Operations its operations, on the master database where it is open and the
-- files on the disk. SQLite is the record `Sqlite` of Construction.Sqlite, which takes and answers
-- texts, each passed and read up to its first zero byte; what it documents of the statements on a
-- database that has the table of databases is the record `Behaves` of Construction.MasterDb.Laws: no
-- order of the rows is assumed for the SELECT that has no ORDER BY. The small engine of
-- Construction.MasterDb.Engine satisfies it.
-- Testsuite: src/testsuite, as it is compiled for POSIX. The record `Os` is the system with its
-- clocks, files and processes; Testsuite.Instances creates instances, Testsuite.Status looks at them
-- and ends them, and Testsuite.Runtime is `runtime` with the environment that it prepares. `IsSteady`
-- and `ReapsOnce` are what is documented of the clock and of `waitpid`.
-- Monitor: src/monitor. Monitor.Health is `HealthMonitor::checkHealth`; the answer of the drive, the
-- free space and the time are inputs. Monitor.Log is the line that `SystemMonitor::log` writes, and
-- Monitor.Watchdog the log of `runWatchdog`, with what the system answers in each round as an input.
-- Api: src/main.cpp. Api.Json and Api.Fields are the text functions; Api.App is what the data handler
-- captures, as one record, with the list of what it does to the server, for a run without `--debug`,
-- in which of the lines that a request logs only those of the level ERROR count, all of them from
-- `DataStorage::insertEntity`: `error_message` is what they say and `log_error` what becomes of them;
-- Api.Route, Api.Insert, Api.Exists and Api.Batch are its branches and Api.Handler the whole, where `none` is an exception
-- that nothing catches, and Api.Handler.History runs of it with broadcasts and log lines in between;
-- Api.Broadcast is the callback of the log and the thread that broadcasts; Api.Start is the start of
-- `main`, from the arguments to the server.
--
-- How they meet: `Shell::run` hands what the registry of arguments accepts to the master database,
-- which it repairs and brings to the number of databases asked for; main feeds identifiers from the
-- data storage into the query engine, whose filter hashes them; `handle` reads the lockdown, decodes the frames of WebSocket clients or routes a
-- request over HTTP, asks and fills the engine, stores rows, allocates in the arenas of the memory
-- manager, and ends with the action that `post` of the server takes; the broadcast measures the
-- arenas, runs the health check, which may set the lockdown that the server's loop and the handler
-- read, and the status service sets or lifts it.
--
-- Fuel: the loop that pads with zeros has 64 rounds, more than it ever needs; `decode_loop` has one
-- round more than there are bytes, and a frame takes at least two; the digits of a 32-bit word have
-- 16, those of `std::to_string` 20, enough for 64 bits; `drain` has three rounds, as a byte adds
-- eight bits to at most five, and `push_equals` four; `wait_for_instance` takes one round more than
-- there are 50 milliseconds in its timeout. The other loops are structural.
--
-- Not modelled: SQLite (src/sqlite, another project's code), sockets, files and the clock, which are
-- inputs; what the data handler logs with `--debug` (without it, it logs nothing itself), what is only
-- printed, and the code for Windows. The comparison of doubles in the health check is exact here, as it
-- is there for sizes below 2^40.
-- Threads are modelled as interleaved steps, each as long as its lock is held; memory is sequentially
-- consistent, and one call of the data handler is one step. `std::mutex` itself and the condition
-- variable are not modelled.
pub mod Api
pub mod Base
pub mod Construction
pub mod Crypto
pub mod Db
pub mod Index
pub mod Memory
pub mod Monitor
pub mod Network
pub mod Security
pub mod Shell
pub mod Testsuite
