-- ===== src/Transaction/Commit.antt =====
-- What a commit does to the table, and when it returns.
use concurrent_transactional.Prelude.{
  ℕ, Bytes, bytes_eq, bytes_eq_iff, Bool, true, Option, none, some, [], ◌∷◌, ◌≡◌, refl, arith,
  subst, sym, if◌then◌else◌, Bool-cases, inl, inr,
}
use concurrent_transactional.Prelude.Map.{Map, lookup, bytes_order}
use concurrent_transactional.Prelude.Sorted.{Sorted, lookup-Above}
use concurrent_transactional.Store.{Store, get, put, delete_key}
use concurrent_transactional.Store.Laws.{get-put, get-delete_key}
use concurrent_transactional.Wal.{log_commit}
use concurrent_transactional.GroupCommit.{wait_for_commit}
use concurrent_transactional.Types.{LockMode}
use concurrent_transactional.Locks.{entry_in, has_lock, release_all_locks}
use concurrent_transactional.Locks.Release.{NoWaiter}
use concurrent_transactional.Locks.ReleaseAll.{release_all_locks-IsFree, has_lock-IsFree}
use concurrent_transactional.Transaction.Replies.{Status}
use concurrent_transactional.Transaction.{end_commit, apply_rounds}
use concurrent_transactional.Transaction.{
  Shared, Manager, Others, is_active, idle_txn, apply_pending, log_pending, finish_commit,
  release_all, commit,
}

-- What a commit leaves at a key, from what its transaction wrote there and from what was there.
unfoldable pub outcome : Option (Bytes × Bool) → Option Bytes → Option Bytes
outcome none old = old
outcome (some (value, is_deleted)) old = if is_deleted then none else some value

pub get-apply_pending :
    (k : Bytes) (m : Map Bytes (Bytes × Bool)) (s : Store)
    → Sorted m
    → get k (apply_pending m s) ≡ outcome (lookup k m) (get k s)
unfolding apply_pending outcome lookup
get-apply_pending k [] s h = refl
get-apply_pending k ((key, (value, is_deleted)) ∷ rest) s (a, h) =
    elim (Bool-cases (bytes_eq key k)) [
      | inl same ↦ ground (
        arith,
        get-apply_pending k rest (if is_deleted then (delete_key key s).0 else put key value s) h,
        get-put key k value s,
        get-delete_key key k s,
        same,
        gone same,
      )
      | inr other ↦ ground (
        arith,
        get-apply_pending k rest (if is_deleted then (delete_key key s).0 else put key value s) h,
        get-put key k value s,
        get-delete_key key k s,
        other,
      )
    ]
  where
    gone : bytes_eq key k ≡ true → lookup k rest ≡ none
    gone same =
        subst (λ i. lookup i rest ≡ none) ((bytes_eq_iff key k).0 same) (lookup-Above key rest a)

-- The shared objects when a commit goes on: its records are in the log, and where it waits for the
-- flush, the other threads have run.
unfoldable pub at_wake : Others → Manager → Shared → Shared
at_wake others m w =
    let txn = m.current_txn in
    let logged = (log_commit txn.txn_id (log_pending txn.txn_id txn.pending_buffer w.wal)).0 in
    if m.group_commit then others (record w { wal = logged }) else record w { wal = logged }

-- Which objects a commit uses: all of them.
pub record IsConnected (m : Manager) : Type 0 where
  pub server_set : m.server ≡ true
  pub store_set : m.store ≡ true
  pub lock_manager_set : m.lock_manager ≡ true
  pub wal_set : m.wal ≡ true
  pub group_commit_set : m.group_commit ≡ true

-- The others leave the table at a key as it is.
abbrev pub Spare : Bytes → Others → Type 0
Spare k others = (w : Shared) → get k (others w).store ≡ get k w.store

-- The number of the commit record.
unfoldable pub commit_lsn : Manager → Shared → ℕ
commit_lsn m w =
    let txn = m.current_txn in
    (log_commit txn.txn_id (log_pending txn.txn_id txn.pending_buffer w.wal)).1

-- The waiting commit of a transaction that is active.
commit_waits :
    (others : Others) (m : Manager) (w : Shared)
    → IsConnected m
    → is_active m.current_txn.state ≡ true
    → commit others m w ≡ (
        if wait_for_commit (commit_lsn m w) (at_wake others m w).wal
        then some (finish_commit others m (at_wake others m w))
        else none)
unfolding commit at_wake commit_lsn
commit_waits others m w c a = rw (a, c.wal_set, c.group_commit_set) refl

commit_returns :
    (others : Others) (m : Manager) (w : Shared) (r : Manager × Shared × Status)
    → IsConnected m
    → is_active m.current_txn.state ≡ true
    → commit others m w ≡ some r
    → (r ≡ finish_commit others m (at_wake others m w))
      × (wait_for_commit (commit_lsn m w) (at_wake others m w).wal ≡ true)
commit_returns others m w r c a h = ground (arith, commit_waits others m w c a)

-- What a commit of the transaction of `m` has done when it returns, and at a key.
pub record IsCommitted (others : Others) (m : Manager) (w : Shared) (k : Bytes)
    (r : Manager × Shared × Status) : Type 0 where
  pub answers : r.2 ≡ Status.success
  pub idle : r.0.current_txn ≡ idle_txn m.session_id
  pub waited : wait_for_commit (commit_lsn m w) (at_wake others m w).wal ≡ true
  pub stored :
      get k r.1.store
      ≡ outcome (lookup k m.current_txn.pending_buffer) (get k (at_wake others m w).store)

-- Before the locks are released.
unfoldable pub at_release : Others → Manager → Shared → Shared
at_release others m w = apply_rounds others m.current_txn.pending_buffer (at_wake others m w)

finish_commit-locks :
    (others : Others) (m : Manager) (w : Shared)
    → m.store ≡ true
    → m.lock_manager ≡ true
    → (finish_commit others m w).1.locks
      ≡ release_all_locks m.current_txn.txn_id
          (apply_rounds others m.current_txn.pending_buffer w).locks
unfolding finish_commit end_commit release_all
finish_commit-locks others m w s l = rw (s, l) refl

-- When a commit of an active transaction returns, by a manager with all its references set, the
-- transaction holds no lock on any key in whose queue none of its own requests is left when the
-- buffer has been applied, whatever the other threads do meanwhile.
pub commit_releases :
    (others : Others) (m : Manager) (w : Shared) (r : Manager × Shared × Status) (key : Bytes)
    → IsConnected m
    → is_active m.current_txn.state ≡ true
    → NoWaiter m.current_txn.txn_id (entry_in key (at_release others m w).locks.table).wait_queue
    → commit others m w ≡ some r
    → has_lock m.current_txn.txn_id key r.1.locks ≡ LockMode.none
unfolding at_release
commit_releases others m w r key c a n h =
    let id = m.current_txn.txn_id in
    let w' = at_release others m w in
    let freed =
      has_lock-IsFree id key (release_all_locks id w'.locks)
        (release_all_locks-IsFree id key w'.locks n) in
    subst (λ x. has_lock id key x.1.locks ≡ LockMode.none)
      (sym (commit_returns others m w r c a h).0)
      (rw (finish_commit-locks others m (at_wake others m w) c.store_set c.lock_manager_set) freed)
