-- ===== src/Lib.antt =====
-- A transactional key-value store: a server that runs the transactions of many clients over one
-- table of keys, with two-phase locking, a write-ahead log, group commit, snapshots and recovery.
--
-- The parts and their files:
--   * Types: include/kvdb.h.
--   * Store: src/core/store.cpp, the table in memory.
--   * Locks: src/core/lock_manager.cpp. `request` and `finish_wait` are `acquireLock` before and after
--     its wait; Locks/Entry is one entry of the table; Locks/History is any sequence of calls.
--   * Wal: src/core/wal_manager.cpp. Wal/Encoding is the byte layout and the checksum.
--   * GroupCommit: src/core/group_commit.cpp. GroupCommit/System interleaves the parts of `flushOnce`
--     with the calls that log.
--   * Recovery: src/core/recovery_manager.cpp. Recovery/Committed says what a log commits without
--     reference to the code; the other files relate the code to it.
--   * Checkpoint: src/core/checkpoint_manager.cpp, snapshots and the cut of the log behind them.
--   * Transaction: src/core/transaction_manager.cpp, one manager for each session. `Shared` is what
--     the sessions share, and `Others` what the other sessions do to it where a call waits.
--   * World: many sessions on one server, their methods in the parts between which others can run.
--     World/Invariant is what holds of all of them; World/Serial keeps a journal of the reads and the
--     commits beside a run; World/Races has the calls of the table that no mutex keeps apart.
--   * Server: src/server/server.cpp, what the server keeps, its start up to the sockets, checkpoints.
--   * Session: src/server/connection_handler.cpp, the lines and the commands of a client;
--     Session/Run is the loop over them, Session/Dispatch what holds of every command, Session/Abandoned a
--     client that is gone; Session/Reports is `getStats`, `dumpLockTable` and src/protocol/protocol.cpp.
--   * Parser: src/protocol/parser.cpp, a line as a command.
--   * ReferenceModel: src/chaos_tests/reference_model.cpp, what the chaos tests compare the server with.
--   * Tests: the theorems at concrete inputs.
--
-- A `std::string` is the list of its bytes. Numbers are natural numbers, with the wrap-around of the
-- fixed widths written out where the program counts or cuts. A `std::map` is an association list in
-- the order of its keys, and a `std::unordered_map` one in some order, on which nothing depends.
-- A function that changes an object returns the new object. Where a class locks a mutex
-- in a method, the method is one step; where the program lets go of the mutex, or has none, and another
-- thread can see a difference, the model has two steps, or a function for what the other threads do in
-- between. `get`, `put` and `delete_key` of the store lock nothing. In World each takes effect at one
-- instant; World/Races has steps that overlap, and gives no result to a run in which two calls meet of
-- which one writes, since the program is then undefined. The theorems about many sessions and the table
-- are about the other runs.
-- Files are the bytes they hold. Memory is little-endian, where integers are copied to and from it.
--
-- The loops `scan_wal` of Recovery and `keep_records` of Checkpoint run on fuel, and get the length
-- of the file: each round but the last reads 17 bytes or more. `digits` gets 20, the digits
-- of the greatest 64-bit number. The theorems are about runs with that fuel. `run_loop` of Session gets one
-- more than the number of bytes that arrive, of which every line takes one.
--
-- Not modelled: sockets and threads as such, the start and the stop of the worker,
-- the wake-up of those who wait for a flush, the command-line
-- client, console output, and the failure of writes to the log file, which the program does not test.
pub mod Prelude
pub mod Types
pub mod Store
pub mod Locks
pub mod Wal
pub mod GroupCommit
pub mod Recovery
pub mod Checkpoint
pub mod Transaction
pub mod World
pub mod Parser
pub mod Server
pub mod Session
pub mod ReferenceModel
pub mod Tests
