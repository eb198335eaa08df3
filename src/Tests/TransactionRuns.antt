-- ===== src/Tests/TransactionRuns.antt =====
-- Runs of the transaction manager.
use concurrent_transactional.Prelude.{
  Bytes, codes, bytes_eq, bytes_lt, true, false, Option, none, some, List, [], ◌∷◌, ◌≡◌, refl,
}
use concurrent_transactional.Prelude.Map.{lookup, insert, bytes_order}
use concurrent_transactional.Types.{LockMode, IsolationLevel, TxnState}
use concurrent_transactional.Locks.{Locks, entry_in, request}
use concurrent_transactional.Locks.Entry.{contains, add, request_entry, is_compatible, grant_mode}
use concurrent_transactional.Wal.{Wal, log_put, log_commit, log_record, log_begin, get_flushed_lsn}
use concurrent_transactional.GroupCommit.{wait_for_commit}
use concurrent_transactional.Transaction.{
  Shared, Manager, Others, log_pending, commit, finish_commit, apply_rounds, abort, new_manager,
  begin, put, write, acquire_lock, allocate_txn_id, set_global_references, finish_write, get,
}
use concurrent_transactional.Transaction.Commit.{IsConnected, at_wake, at_release, commit_releases}
use concurrent_transactional.Transaction.Abort.{IsAborted, abort_undoes}
use concurrent_transactional.Transaction.Calls.{
  connected, Call, begins, puts, IsWellFormed, call, run_calls, run_calls-IsWellFormed,
}
use concurrent_transactional.Transaction.Reads.{answer_of, get-own_write}
use concurrent_transactional.Transaction.Leaks.{IsExposed, get_exposes_write}
use concurrent_transactional.Locks.{has_lock}
use concurrent_transactional.Locks.Release.{NoWaiter}

abbrev pub key : Bytes
key = codes "k"

abbrev log : Wal
log = record {
  is_open = true;
  next_lsn = 1;
  flushed_lsn = 0;
  buffer = [];
  stream = [];
  written = [];
  synced = [];
}

-- Transaction 1 holds the key.
abbrev table : Locks
table = record {
  table =
      (key, record { current_mode = LockMode.exclusive; holders = 1 ∷ []; wait_queue = [] }) ∷ [];
  flags = λ c. record { granted = false; deadlocked = false };
  next_cell = 1;
}

abbrev pub shared : Shared
shared = record {
  store = record { data_ = (key, codes "old") ∷ [] };
  locks = table;
  wal = log;
  next_txn_id = 2;
}

-- It has written the key.
abbrev pub writer : Manager
writer = record {
  session_id = 7;
  current_txn = record {
    txn_id = 1;
    session_id = 7;
    isolation_level = IsolationLevel.read_committed;
    state = TxnState.active;
    pending_buffer = (key, (codes "new", false)) ∷ [];
    locks_held = (key, LockMode.exclusive) ∷ [];
  };
  server = true;
  store = true;
  lock_manager = true;
  wal = true;
  group_commit = true;
  total_commits = 0;
  deadlock_aborts = 0;
}

writer-IsConnected : IsConnected writer
writer-IsConnected = record {
  server_set = refl;
  store_set = refl;
  lock_manager_set = refl;
  wal_set = refl;
  group_commit_set = refl;
}

-- The other threads flush what is logged.
abbrev pub flushes : Others
flushes w = record w { wal = record w.wal { flushed_lsn = 2 } }

commit_runs :
    commit flushes writer shared
    ≡ some (finish_commit flushes writer (at_wake flushes writer shared))
unfolding commit at_wake log_pending log_put log_commit log_record wait_for_commit get_flushed_lsn
commit_runs = refl

NoWaiter-now : NoWaiter 1 (entry_in key table.table).wait_queue
unfolding entry_in lookup bytes_eq
NoWaiter-now = tt

NoWaiter-later : NoWaiter 1 (entry_in key (at_release flushes writer shared).locks.table).wait_queue
unfolding at_release apply_rounds at_wake
NoWaiter-later = NoWaiter-now

holds_key : contains 1 (entry_in key table.table).holders ≡ true
unfolding entry_in lookup bytes_eq contains
holds_key = refl

wrote_key : lookup key writer.current_txn.pending_buffer ≡ some (codes "new", false)
unfolding lookup bytes_eq
wrote_key = refl

commit_releases_example :
    has_lock 1 key (finish_commit flushes writer (at_wake flushes writer shared)).1.locks
    ≡ LockMode.none
commit_releases_example =
    commit_releases flushes writer shared
      (finish_commit flushes writer (at_wake flushes writer shared)) key writer-IsConnected refl
      NoWaiter-later commit_runs

abort_undoes_example : IsAborted writer shared (abort writer shared)
abort_undoes_example = abort_undoes writer shared writer-IsConnected refl

get-own_write_example :
    ((get flushes key writer shared).0.2, (get flushes key writer shared).1)
    ≡ answer_of (codes "new", false)
get-own_write_example =
    get-own_write flushes key (codes "new", false) writer shared refl refl wrote_key holds_key

get_exposes_write_example :
    IsExposed key
      (codes "new", false)
      1
      (get flushes key writer shared).0.0
      (get flushes key writer shared).0.1
get_exposes_write_example =
    get_exposes_write flushes key (codes "new", false) writer shared refl refl refl wrote_key
      holds_key NoWaiter-now

abbrev session_calls : List (Others × Call)
session_calls =
    (flushes, begins IsolationLevel.repeatable_read)
    ∷ (flushes, puts (codes "b") (codes "1"))
    ∷ (flushes, puts (codes "a") (codes "2"))
    ∷ (flushes, puts (codes "b") (codes "3"))
    ∷ []

-- What a run by evaluation opens.
ran : Option (Manager × Shared)
unfolding run_calls call finish_write new_manager set_global_references begin allocate_txn_id put
    write acquire_lock log_begin log_record request request_entry entry_in lookup insert bytes_eq
    bytes_lt contains add is_compatible grant_mode
ran = run_calls session_calls (connected 7 true) shared

abbrev or_writer : Option (Manager × Shared) → Manager × Shared
or_writer none = (writer, shared)
or_writer (some r) = r

ran_ends : run_calls session_calls (connected 7 true) shared ≡ some (or_writer ran)
unfolding ran
ran_ends = refl

ran_buffer :
    (or_writer ran).0.current_txn.pending_buffer
    ≡ (codes "a", (codes "2", false)) ∷ (codes "b", (codes "3", false)) ∷ []
unfolding ran
ran_buffer = refl

run_calls-IsWellFormed_example : IsWellFormed (or_writer ran).0
run_calls-IsWellFormed_example =
    run_calls-IsWellFormed session_calls 7 true shared (or_writer ran) ran_ends
