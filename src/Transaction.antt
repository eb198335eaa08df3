-- ===== src/Transaction.antt =====
-- src/core/transaction_manager.h and src/core/transaction_manager.cpp, with `TransactionInfo` of
-- include/kvdb.h (its start time is stored and never read). A method takes the objects that all
-- sessions share and returns them. Where it waits, for a lock or for a flush, the other threads
-- run: `others` is what they do meanwhile to the shared objects.
pub mod Replies
pub mod Commit
pub mod Abort
pub mod Calls
pub mod Reads
pub mod Leaks
use concurrent_transactional.Prelude.{
  ℕ, ◌+◌, ◌%◌, ◌^◌, Bytes, Bool, true, false, not, Option, none, some, List, [], ◌∷◌, if◌then◌else◌,
}
use concurrent_transactional.Prelude.Map.{Map, lookup, insert, erase, bytes_order}
use concurrent_transactional.Types.{LockMode, IsolationLevel, TxnState}
use concurrent_transactional.Store.{Store}
use concurrent_transactional.Store
use concurrent_transactional.Locks.{Locks, request, finish_wait, release_lock, release_all_locks}
use concurrent_transactional.Locks.Entry.{Attempt}
use concurrent_transactional.Wal.{Wal, log_begin, log_put, log_delete, log_commit, log_abort}
use concurrent_transactional.GroupCommit.{wait_for_commit}
use Replies.{Status}

pub record Shared : Type 0 where
  pub store : Store
  pub locks : Locks
  pub wal : Wal
  pub next_txn_id : ℕ

abbrev pub Others : Type 0
Others = Shared → Shared

pub record TransactionInfo : Type 0 where
  pub txn_id : ℕ
  pub session_id : ℕ
  pub isolation_level : IsolationLevel
  pub state : TxnState
  pub pending_buffer : Map Bytes (Bytes × Bool)
  pub locks_held : Map Bytes LockMode

-- The pointers are set or null.
pub record Manager : Type 0 where
  pub session_id : ℕ
  pub current_txn : TransactionInfo
  pub server : Bool
  pub store : Bool
  pub lock_manager : Bool
  pub wal : Bool
  pub group_commit : Bool
  pub total_commits : ℕ
  pub deadlock_aborts : ℕ

-- `TransactionInfo{}` with its session.
abbrev pub idle_txn : ℕ → TransactionInfo
idle_txn session = record {
  txn_id = 0;
  session_id = session;
  isolation_level = IsolationLevel.read_committed;
  state = TxnState.idle;
  pending_buffer = [];
  locks_held = [];
}

unfoldable pub new_manager : ℕ → Bool → Manager
new_manager session server = record {
  session_id = session;
  current_txn = idle_txn session;
  server = server;
  store = false;
  lock_manager = false;
  wal = false;
  group_commit = false;
  total_commits = 0;
  deadlock_aborts = 0;
}

unfoldable pub set_global_references : Bool → Bool → Bool → Bool → Manager → Manager
set_global_references store lock_manager wal group_commit m = record m {
  store = store;
  lock_manager = lock_manager;
  wal = wal;
  group_commit = group_commit;
}

abbrev pub is_active : TxnState → Bool
is_active TxnState.idle = false
is_active TxnState.active = true
is_active TxnState.committed = false
is_active TxnState.aborted = false

unfoldable pub is_in_transaction : Manager → Bool
is_in_transaction m = is_active m.current_txn.state

-- `Server::allocateTxnId`
unfoldable pub allocate_txn_id : Shared → Shared × ℕ
allocate_txn_id w = (record w { next_txn_id = (w.next_txn_id + 1) % 2 ^ 32 }, w.next_txn_id)

unfoldable pub begin : IsolationLevel → Manager → Shared → Manager × Shared × Status
begin level m w =
    if is_active m.current_txn.state
    then (m, w, Status.already_in_transaction m.current_txn.txn_id)
    else if not m.server
    then (m, w, Status.no_server)
    else (let (w', id) = allocate_txn_id w in
        (
          record m {
            current_txn = record {
              txn_id = id;
              session_id = m.session_id;
              isolation_level = level;
              state = TxnState.active;
              pending_buffer = [];
              locks_held = [];
            };
          },
          if m.wal then record w' { wal = (log_begin id w'.wal).0 } else w',
          Status.success,
        ))

-- `applyPendingBuffer`, its loop.
unfoldable pub apply_pending : Map Bytes (Bytes × Bool) → Store → Store
apply_pending [] s = s
apply_pending ((key, (value, is_deleted)) ∷ rest) s =
    apply_pending rest (if is_deleted then (Store.delete_key key s).0 else Store.put key value s)

-- The loop of `commit` over the pending buffer.
unfoldable pub log_pending : ℕ → Map Bytes (Bytes × Bool) → Wal → Wal
log_pending id [] l = l
log_pending id ((key, (value, is_deleted)) ∷ rest) l =
    log_pending id rest (if is_deleted then (log_delete id key l).0 else (log_put id key value l).0)

unfoldable pub release_all : Manager → ℕ → Shared → Shared
release_all m id w = if m.lock_manager then record w { locks = release_all_locks id w.locks } else w

-- `commit` from the end of `applyPendingBuffer`.
unfoldable pub end_commit : Manager → Shared → Manager × Shared × Status
end_commit m w = (
  record m { current_txn = idle_txn m.session_id; total_commits = (m.total_commits + 1) % 2 ^ 64 },
  release_all m m.current_txn.txn_id w,
  Status.success,
)

-- `applyPendingBuffer` and the release after it, which hold no mutex in common: the other threads go
-- on before each entry and before the release.
unfoldable pub apply_rounds : Others → Map Bytes (Bytes × Bool) → Shared → Shared
apply_rounds others [] w = others w
apply_rounds others (entry ∷ rest) w =
    let v = others w in
    apply_rounds others rest (record v { store = apply_pending (entry ∷ []) v.store })

-- `commit` from the end of its wait.
unfoldable pub finish_commit : Others → Manager → Shared → Manager × Shared × Status
finish_commit others m w =
    end_commit m (if m.store then apply_rounds others m.current_txn.pending_buffer w else others w)

-- `none` is a commit that still waits for its flush.
unfoldable pub commit : Others → Manager → Shared → Option (Manager × Shared × Status)
commit others m w =
    let txn = m.current_txn in
    let (logged, lsn) =
      if m.wal
      then log_commit txn.txn_id (log_pending txn.txn_id txn.pending_buffer w.wal)
      else (w.wal, 0) in
    let before = record w { wal = logged } in
    if not (is_active txn.state)
    then some (m, w, Status.not_in_transaction)
    else if m.group_commit
    then (let after = others before in
        if wait_for_commit lsn after.wal then some (finish_commit others m after) else none)
    else some (finish_commit others m before)

unfoldable pub abort : Manager → Shared → Manager × Shared × Status
abort m w =
    let id = m.current_txn.txn_id in
    let logged = if m.wal then record w { wal = (log_abort id w.wal).0 } else w in
    if is_active m.current_txn.state
    then (record m { current_txn = idle_txn m.session_id }, release_all m id logged, Status.success)
    else (m, w, Status.not_in_transaction)

-- `acquireLock` with its wait.
unfoldable pub acquire_lock : Others → ℕ → Bytes → LockMode → Shared → Shared × Bool
acquire_lock others id key mode w =
    let (l, attempt) = request id key mode w.locks in
    elim attempt [
      | Attempt.granted ↦ (record w { locks = l }, true)
      | Attempt.waiting ↦
          let after = others (record w { locks = l }) in
          let (l', got) = finish_wait id key w.locks.next_cell after.locks in
          (record after { locks = l' }, got)
    ]

-- The answer to a lock that was not got.
unfoldable pub abort_deadlocked : Manager → Shared → Manager × Shared × Status
abort_deadlocked m w =
    let (m', w', _) = abort m w in
    (record m' { deadlock_aborts = (m'.deadlock_aborts + 1) % 2 ^ 64 }, w', Status.deadlock)

-- `put` and `delete_key` from the answer of `acquireLock`.
unfoldable pub finish_write :
    Bytes → Bytes × Bool → Bool → Manager → Shared → Manager × Shared × Status
finish_write key entry got m w =
    let txn = m.current_txn in
    if not got then abort_deadlocked m w else (
      record m {
        current_txn = record txn {
          locks_held = insert key LockMode.exclusive txn.locks_held;
          pending_buffer = insert key entry txn.pending_buffer;
        };
      },
      w,
      Status.success,
    )

-- The common body of `put` and `delete_key`.
unfoldable pub write : Others → Bytes → Bytes × Bool → Manager → Shared → Manager × Shared × Status
write others key entry m w =
    let (w', got) = acquire_lock others m.current_txn.txn_id key LockMode.exclusive w in
    if not (is_active m.current_txn.state)
    then (m, w, Status.not_in_transaction)
    else if not m.lock_manager
    then (m, w, Status.no_lock_manager)
    else finish_write key entry got m w'

unfoldable pub put : Others → Bytes → Bytes → Manager → Shared → Manager × Shared × Status
put others key value m w = write others key (value, false) m w

unfoldable pub delete_key : Others → Bytes → Manager → Shared → Manager × Shared × Status
delete_key others key m w = write others key ([], true) m w

-- The release of a key after a read, at the weaker level.
unfoldable pub read_done : Bytes → Manager → Shared → Manager × Shared
read_done key m w =
    let txn = m.current_txn in
    elim txn.isolation_level [
      | IsolationLevel.repeatable_read ↦ (m, w)
      | IsolationLevel.read_committed ↦ (
        record m { current_txn = record txn { locks_held = erase key txn.locks_held } },
        record w { locks = release_lock txn.txn_id key w.locks },
      )
    ]

-- What `get` answers once it has the lock, and `none` where it returns without the release.
unfoldable pub read_value : Bytes → Manager → Shared → Status × Bytes
read_value key m w = elim (lookup key m.current_txn.pending_buffer) [
  | some entry ↦ if entry.1 then (Status.deleted_here, []) else (Status.success, entry.0)
  | none ↦ if not m.store then (Status.no_store, []) else elim (Store.get key w.store) [
    | some v ↦ (Status.success, v)
    | none ↦ (Status.not_found, [])
  ]
]

abbrev pub is_no_store : Status → Bool
is_no_store Status.no_store = true
is_no_store _ = false

-- `get` from the answer of `acquireLock`.
unfoldable pub finish_get : Bytes → Bool → Manager → Shared → (Manager × Shared × Status) × Bytes
finish_get key got m w =
    let txn = m.current_txn in
    if not got
    then (abort_deadlocked m w, [])
    else (let held = record m {
      current_txn = record txn { locks_held = insert key LockMode.shared txn.locks_held };
    } in
        let (status, value) = read_value key held w in
        let (m', w') = read_done key held w in
        if is_no_store status then ((held, w, status), value) else ((m', w', status), value))

-- The value is `out_value`, empty where it is not set.
unfoldable pub get : Others → Bytes → Manager → Shared → (Manager × Shared × Status) × Bytes
get others key m w =
    let (w', got) = acquire_lock others m.current_txn.txn_id key LockMode.shared w in
    if not (is_active m.current_txn.state)
    then ((m, w, Status.not_in_transaction), [])
    else if not m.lock_manager
    then ((m, w, Status.no_lock_manager), [])
    else finish_get key got m w'
