-- ===== src/World.antt =====
-- Several sessions at work on one server: the methods of src/core/transaction_manager.cpp in the parts
-- between which other threads can run. A method stops where it waits for a lock or for the flush of
-- its commit, and between the entries that `applyPendingBuffer` writes. The flush worker of
-- src/core/group_commit.cpp runs at any time. A move takes effect at one instant, a `get` with the
-- grant of its lock and a round with its call of the store, which no mutex of the program makes so:
-- World/Races has the intervals in which they do, and the runs that are data races.
pub mod Effects
pub mod Invariant
pub mod Steps
pub mod Acts
pub mod Ids
pub mod Orderly
pub mod Writes
pub mod Held
pub mod Shapes
pub mod Serial
pub mod Races
pub mod Isolation
use concurrent_transactional.Prelude.{
  ℕ, ◌==◌, Bytes, Bool, true, false, ◌&&◌, Option, none, some, List, [], ◌∷◌, if◌then◌else◌,
}
use concurrent_transactional.Prelude.Map.{Map}
use concurrent_transactional.Types.{LockMode, IsolationLevel}
use concurrent_transactional.Store.{empty}
use concurrent_transactional.Locks.{initial, request, finish_wait}
use concurrent_transactional.Locks.Entry.{Attempt, granted, waiting}
use concurrent_transactional.Wal.{log_commit}
use concurrent_transactional.Wal
use concurrent_transactional.GroupCommit.{flush_once, wait_for_commit}
use concurrent_transactional.Transaction.Replies.{Status}
use concurrent_transactional.Transaction.{
  Shared, Manager, is_active, begin, finish_write, finish_get, log_pending, apply_pending,
  end_commit, abort,
}
use concurrent_transactional.Transaction.Calls.{connected}

-- `put` and `delete_key`, or `get`.
pub data Request : Type 0 where
  writes : Bytes → Bytes × Bool → Request
  reads : Bytes → Request

abbrev pub key_of : Request → Bytes
key_of (writes key entry) = key
key_of (reads key) = key

abbrev pub mode_of : Request → LockMode
mode_of (writes key entry) = LockMode.exclusive
mode_of (reads key) = LockMode.shared

-- Where a session's thread stands.
pub data Standing : Type 0 where
  ready : Standing
  for_lock : Request → ℕ → Standing
  for_flush : ℕ → Standing
  applying : Map Bytes (Bytes × Bool) → Standing

abbrev pub is_ready : Standing → Bool
is_ready ready = true
is_ready (for_lock r cell) = false
is_ready (for_flush lsn) = false
is_ready (applying rest) = false

pub record Session : Type 0 where
  pub manager : Manager
  pub standing : Standing

-- The rest of a method, from the answer of `acquireLock`.
unfoldable pub finish : Request → Bool → Manager → Shared → Manager × Shared × Status
finish (writes key entry) got m w = finish_write key entry got m w
finish (reads key) got m w = (finish_get key got m w).0

abbrev pub is_granted : Attempt → Bool
is_granted Attempt.granted = true
is_granted Attempt.waiting = false

-- A method up to its wait, or to its end where it need not wait.
unfoldable pub request_lock : Request → Session → Shared → Session × Shared
request_lock r s w =
    let (l, attempt) = request s.manager.current_txn.txn_id (key_of r) (mode_of r) w.locks in
    let (m, w', status) = finish r true s.manager (record w { locks = l }) in
    if is_granted attempt
    then (record s { manager = m }, w')
    else (record s { standing = for_lock r w.locks.next_cell }, record w { locks = l })

-- The end of the wait for a lock.
unfoldable pub resume : Standing → Session → Shared → Session × Shared
resume ready s w = (s, w)
resume (for_flush lsn) s w = (s, w)
resume (applying rest) s w = (s, w)
resume (for_lock r cell) s w =
    let (l, got) = finish_wait s.manager.current_txn.txn_id (key_of r) cell w.locks in
    let (m, w', status) = finish r got s.manager (record w { locks = l }) in
    (record { manager = m; standing = ready }, w')

-- `commit` up to its wait.
unfoldable pub start_commit : Session → Shared → Session × Shared
start_commit s w =
    let txn = s.manager.current_txn in
    let (wal, lsn) = log_commit txn.txn_id (log_pending txn.txn_id txn.pending_buffer w.wal) in
    (record s { standing = for_flush lsn }, record w { wal = wal })

-- The end of the wait for the flush.
unfoldable pub pass_flush : Standing → Session → Shared → Session
pass_flush ready s w = s
pass_flush (for_lock r cell) s w = s
pass_flush (applying rest) s w = s
pass_flush (for_flush lsn) s w =
    if wait_for_commit lsn w.wal
    then record s { standing = applying s.manager.current_txn.pending_buffer }
    else s

-- One round of `applyPendingBuffer`, or what comes after the last.
unfoldable pub apply_next : Standing → Session → Shared → Session × Shared
apply_next ready s w = (s, w)
apply_next (for_lock r cell) s w = (s, w)
apply_next (for_flush lsn) s w = (s, w)
apply_next (applying []) s w =
    let (m, w', status) = end_commit s.manager w in (record { manager = m; standing = ready }, w')
apply_next (applying (entry ∷ rest)) s w =
    (record s { standing = applying rest }, record w { store = apply_pending (entry ∷ []) w.store })

pub data Act : Type 0 where
  starts : IsolationLevel → Act
  requests : Request → Act
  resumes commits passes applies aborts : Act

-- A thread goes on only from where it stands. A command outside a transaction is refused.
unfoldable pub act : Act → Session → Shared → Session × Shared
act (starts level) s w =
    let (m, w', status) = begin level s.manager w in
    if is_ready s.standing then (record s { manager = m }, w') else (s, w)
act (requests r) s w =
    if is_ready s.standing && is_active s.manager.current_txn.state
    then request_lock r s w
    else (s, w)
act resumes s w = resume s.standing s w
act commits s w =
    if is_ready s.standing && is_active s.manager.current_txn.state
    then start_commit s w
    else (s, w)
act passes s w = (pass_flush s.standing s w, w)
act applies s w = apply_next s.standing s w
act aborts s w =
    let (m, w', status) = abort s.manager w in
    if is_ready s.standing then (record s { manager = m }, w') else (s, w)

pub record World : Type 0 where
  pub shared : Shared
  pub sessions : ℕ → Session

unfoldable pub update : ℕ → Session → (ℕ → Session) → ℕ → Session
update i s f j = if i == j then s else f j

pub data Move : Type 0 where
  acts : ℕ → Act → Move
  flushes : Move

-- A worker that an exception has ended does nothing.
unfoldable pub move : Move → World → World
move (acts i a) v =
    let (s, w) = act a (v.sessions i) v.shared in
    record { shared = w; sessions = update i s v.sessions }
move flushes v = elim (flush_once true v.shared.wal) [
  | none ↦ v
  | some wal ↦ record v { shared = record v.shared { wal = wal } }
]

unfoldable pub run_moves : List Move → World → World
run_moves [] v = v
run_moves (x ∷ xs) v = run_moves xs (move x v)

-- A server that has started with no files, and the sessions of all clients to come.
unfoldable pub new_world : World
new_world = record {
  shared = record { store = empty; locks = initial; wal = Wal.initial true []; next_txn_id = 1 };
  sessions = λ i. record { manager = connected i true; standing = ready };
}
