-- ===== src/Transaction/Abort.antt =====
-- What an abort does, by itself and as the answer to a lock that was not got.
use concurrent_transactional.Prelude.{Bytes, true, ◌≡◌, refl}
use concurrent_transactional.Prelude.Map.{bytes_order}
use concurrent_transactional.Wal.{log_abort}
use concurrent_transactional.Types.{LockMode}
use concurrent_transactional.Locks.{entry_in, has_lock, release_all_locks}
use concurrent_transactional.Locks.Release.{NoWaiter}
use concurrent_transactional.Locks.ReleaseAll.{release_all_locks-IsFree, has_lock-IsFree}
use concurrent_transactional.Transaction.Replies.{Status}
use concurrent_transactional.Transaction.{Shared, Manager, is_active, abort, release_all}
use concurrent_transactional.Prelude.{ℕ, if_both, if◌then◌else◌, ◌∙◌}
use concurrent_transactional.Transaction.{Shared, Manager, is_active, idle_txn, release_all, abort}
use concurrent_transactional.Transaction.Commit.{IsConnected}

-- What an abort has done.
pub record IsAborted (m : Manager) (w : Shared) (r : Manager × Shared × Status) : Type 0 where
  pub answers : r.2 ≡ Status.success
  pub idle : r.0.current_txn ≡ idle_txn m.session_id
  pub unchanged : r.1.store ≡ w.store
  pub logged : r.1.wal ≡ (log_abort m.current_txn.txn_id w.wal).0
  pub released :
      (key : Bytes)
      → NoWaiter m.current_txn.txn_id (entry_in key w.locks.table).wait_queue
      → has_lock m.current_txn.txn_id key r.1.locks ≡ LockMode.none

-- An abort of an active transaction, by a manager with all its references set, answers success,
-- leaves no transaction behind and the table as it was, logs one abort record, and takes from the
-- transaction its lock on every key in whose queue none of its own requests is left.
pub abort_undoes :
    (m : Manager) (w : Shared)
    → IsConnected m
    → is_active m.current_txn.state ≡ true
    → IsAborted m w (abort m w)
unfolding abort release_all
abort_undoes m w c a = record {
  answers = rw a refl;
  idle = rw a refl;
  unchanged = rw (a, c.lock_manager_set, c.wal_set) refl;
  logged = rw (a, c.lock_manager_set, c.wal_set) refl;
  released = λ key n.
      rw (a, c.lock_manager_set, c.wal_set)
        (has_lock-IsFree m.current_txn.txn_id key (release_all_locks m.current_txn.txn_id w.locks)
          (release_all_locks-IsFree m.current_txn.txn_id key w.locks n));
}

release_all-store : (m : Manager) (id : ℕ) (w : Shared) → (release_all m id w).store ≡ w.store
unfolding release_all
release_all-store m id w =
    if_both (λ (x : Shared). x.store ≡ w.store) m.lock_manager _ _ (λ b. refl) (λ b. refl)

pub abort-store : (m : Manager) (w : Shared) → (abort m w).1.store ≡ w.store
unfolding abort
abort-store m w =
    let id = m.current_txn.txn_id in
    let logged : Shared = if m.wal then record w { wal = (log_abort id w.wal).0 } else w in
    if_both (λ (r : Manager × Shared × Status). r.1.store ≡ w.store) (is_active m.current_txn.state)
      _ _
      (λ a.
        release_all-store m id logged
        ∙ if_both (λ (x : Shared). x.store ≡ w.store) m.wal _ _ (λ b. refl) (λ b. refl))
      (λ a. refl)
