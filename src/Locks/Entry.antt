-- ===== src/Locks/Entry.antt =====
-- One entry of the lock table, and what the lock manager does to it.
use concurrent_transactional.Prelude.{
  ℕ, ◌==◌, ltb, Bool, true, false, not, ◌&&◌, ◌||◌, List, [], ◌∷◌, ◌++◌, length, is_empty,
  if◌then◌else◌,
}
use concurrent_transactional.Types.{LockMode, is_none, is_shared, is_exclusive}

pub record Flags : Type 0 where
  pub granted : Bool
  pub deadlocked : Bool

abbrev pub Cells : Type 0
Cells = ℕ → Flags

pub record Waiter : Type 0 where
  pub txn_id : ℕ
  pub requested_mode : LockMode
  pub cell : ℕ

pub record LockEntry : Type 0 where
  pub current_mode : LockMode
  pub holders : List ℕ
  pub wait_queue : List Waiter

-- `LockEntry()`
abbrev pub fresh : LockEntry
fresh = record { current_mode = LockMode.none; holders = []; wait_queue = [] }

-- `std::set<TxnId>`: a list in increasing order.
unfoldable pub contains : ℕ → List ℕ → Bool
contains t [] = false
contains t (x ∷ xs) = (x == t) || contains t xs

unfoldable pub add : ℕ → List ℕ → List ℕ
add t [] = t ∷ []
add t (x ∷ xs) =
    let rest = add t xs in if x == t then x ∷ xs else if ltb t x then t ∷ x ∷ xs else x ∷ rest

unfoldable pub remove : ℕ → List ℕ → List ℕ
remove t [] = []
remove t (x ∷ xs) = let rest = remove t xs in if x == t then rest else x ∷ rest

unfoldable pub is_compatible : LockMode → LockMode → Bool
is_compatible mode1 mode2 =
    if is_none mode1 || is_none mode2
    then true
    else if is_shared mode1 && is_shared mode2
    then true
    else false

-- The mode of an entry after a grant.
unfoldable pub grant_mode : LockMode → LockMode → LockMode
grant_mode current mode =
    if is_none current then mode else if is_exclusive mode then LockMode.exclusive else current

pub data Attempt : Type 0 where
  granted waiting : Attempt

abbrev enqueue : ℕ → LockMode → ℕ → LockEntry → LockEntry × Attempt
enqueue txn mode cell e = (
  record e {
    wait_queue = e.wait_queue ++ record { txn_id = txn; requested_mode = mode; cell = cell } ∷ [];
  },
  waiting,
)

-- A holder that asks for more, by the wait queue: alone and with nobody before it, it is upgraded.
unfoldable pub upgrade : ℕ → LockMode → ℕ → LockEntry → List Waiter → LockEntry × Attempt
upgrade txn mode cell e [] =
    if length e.holders == 1
    then (record e { current_mode = LockMode.exclusive }, granted)
    else enqueue txn mode cell e
upgrade txn mode cell e (w ∷ q) =
    if (length e.holders == 1) && (w.txn_id == txn)
    then (record e { current_mode = LockMode.exclusive; wait_queue = q }, granted)
    else enqueue txn mode cell e

-- `acquireLock` on its entry, up to the wait. `cell` is where the flags of a new waiter are made.
unfoldable pub request_entry : ℕ → LockMode → ℕ → LockEntry → LockEntry × Attempt
request_entry txn mode cell e =
    if contains txn e.holders
    then if is_exclusive e.current_mode || is_shared mode
      then (e, granted)
      else upgrade txn mode cell e e.wait_queue
    else if is_compatible e.current_mode mode && is_empty e.wait_queue
    then (
      record e { current_mode = grant_mode e.current_mode mode; holders = add txn e.holders },
      granted,
    )
    else enqueue txn mode cell e

-- What `wait_for` returns with leads to `false`: the deadlock flag, or no flag at all.
unfoldable pub is_abandoned : Flags → Bool
is_abandoned f = f.deadlocked || not (f.granted || f.deadlocked)

unfoldable pub without_txn : ℕ → List Waiter → List Waiter
without_txn txn [] = []
without_txn txn (w ∷ q) = let rest = without_txn txn q in if w.txn_id == txn then rest else w ∷ rest

-- `q.erase(std::remove_if(...))`
unfoldable pub drop_waiters : ℕ → LockEntry → LockEntry
drop_waiters txn e = record e { wait_queue = without_txn txn e.wait_queue }

-- `*waiter.granted = true`
unfoldable pub set_granted : ℕ → Cells → Cells
set_granted cell flags c =
    if c == cell then record { granted = true; deadlocked = (flags c).deadlocked } else flags c

pub record Served : Type 0 where
  pub entry : LockEntry
  pub flags : Cells

-- The loop of `processWaiters` on an entry; the third argument is its queue.
unfoldable pub serve : LockMode → List ℕ → List Waiter → Cells → Served
serve mode holders [] flags = record {
  entry = record { current_mode = mode; holders = holders; wait_queue = [] };
  flags = flags;
}
serve mode holders (w ∷ q) flags =
    let rest =
      serve (grant_mode mode w.requested_mode) (add w.txn_id holders) q
        (set_granted w.cell flags) in
    if is_compatible mode w.requested_mode then rest else record {
      entry = record { current_mode = mode; holders = holders; wait_queue = w ∷ q };
      flags = flags;
    }

unfoldable pub process_waiters : LockEntry → Cells → Served
process_waiters e flags = serve e.current_mode e.holders e.wait_queue flags

pub record Released : Type 0 where
  pub entry : LockEntry
  pub flags : Cells
  pub emptied : Bool

-- The common part of `releaseLock` and `releaseAllLocks`. `emptied` is the test of the outer `if`.
unfoldable pub release_entry : ℕ → LockEntry → Cells → Released
release_entry txn e flags =
    let left = remove txn e.holders in
    if is_empty left
    then (let s =
          process_waiters (record e { current_mode = LockMode.none; holders = left }) flags in
        record { entry = s.entry; flags = s.flags; emptied = true })
    else record { entry = record e { holders = left }; flags = flags; emptied = false }
