-- ===== src/Transaction/Leaks.antt =====
-- At the weaker isolation level a read gives up the lock of a key that the transaction wrote.
use concurrent_transactional.Prelude.{
  ℕ, Bytes, bytes_eq_refl, Bool, true, false, not, some, ◌≡◌, refl, ◌≢◌, arith, if_both, subst, ap,
  sym,
}
use concurrent_transactional.Prelude.Map.{lookup, insert, bytes_order}
use concurrent_transactional.Types.{LockMode, IsolationLevel}
use concurrent_transactional.Locks.{entry_in, request}
use concurrent_transactional.Locks.Entry.{contains, request_entry, LockEntry, Attempt}
use concurrent_transactional.Transaction.Replies.{Status}
use concurrent_transactional.Transaction.{finish_get}
use concurrent_transactional.Transaction.{
  Shared, Manager, Others, is_active, get, read_done, acquire_lock, is_no_store, read_value,
}
use concurrent_transactional.Locks.{has_lock, release_lock}
use concurrent_transactional.Locks.Table.{entry_in-insert}
use concurrent_transactional.Locks.Release.{NoWaiter, release_lock-IsFree}
use concurrent_transactional.Locks.ReleaseAll.{has_lock-IsFree}
use concurrent_transactional.Transaction.Reads.{acquire_again, shared_again}

request_attempt :
    (others : Others) (id : ℕ) (key : Bytes) (w : Shared)
    → contains id (entry_in key w.locks.table).holders ≡ true
    → (request_entry id LockMode.shared w.locks.next_cell (entry_in key w.locks.table)).1
      ≡ Attempt.granted
request_attempt others id key w h =
    ap (λ (x : LockEntry × Attempt). x.1)
      (shared_again id w.locks.next_cell (entry_in key w.locks.table) h)

acquire_again-entry :
    (others : Others) (id : ℕ) (key : Bytes) (w : Shared)
    → contains id (entry_in key w.locks.table).holders ≡ true
    → entry_in key (acquire_lock others id key LockMode.shared w).0.locks.table
      ≡ entry_in key w.locks.table
unfolding acquire_lock request
acquire_again-entry others id key w h =
    rw (acquire_lock, request_attempt others id key w h, entry_in-insert, bytes_eq_refl key)
      (ap (λ (x : LockEntry × Attempt). x.0)
        (shared_again id w.locks.next_cell (entry_in key w.locks.table) h))

-- The lock is gone and the write is still to come.
pub record IsExposed (key : Bytes) (entry : Bytes × Bool) (id : ℕ) (m : Manager) (w : Shared)
    : Type 0 where
  pub active : is_active m.current_txn.state ≡ true
  pub same_txn : m.current_txn.txn_id ≡ id
  pub pending : lookup key m.current_txn.pending_buffer ≡ some entry
  pub unlocked : has_lock id key w.locks ≡ LockMode.none

read_done-IsExposed :
    (key : Bytes) (entry : Bytes × Bool) (m : Manager) (w : Shared)
    → m.current_txn.isolation_level ≡ IsolationLevel.read_committed
    → is_active m.current_txn.state ≡ true
    → lookup key m.current_txn.pending_buffer ≡ some entry
    → NoWaiter m.current_txn.txn_id (entry_in key w.locks.table).wait_queue
    → IsExposed key entry m.current_txn.txn_id (read_done key m w).0 (read_done key m w).1
unfolding read_done
read_done-IsExposed key entry m w i a p n = record {
  active = rw i a;
  same_txn = rw i refl;
  pending = rw i p;
  unlocked = rw i (
      has_lock-IsFree m.current_txn.txn_id key (release_lock m.current_txn.txn_id key w.locks)
        (release_lock-IsFree m.current_txn.txn_id key w.locks n));
}

has_value :
    (key : Bytes) (entry : Bytes × Bool) (m : Manager) (w : Shared)
    → lookup key m.current_txn.pending_buffer ≡ some entry
    → is_no_store (read_value key m w).0 ≢ true
unfolding read_value
has_value key (v, true) m w p = rw (read_value, p) (λ x. cc x)
has_value key (v, false) m w p = rw (read_value, p) (λ x. cc x)

-- At READ_COMMITTED, a read in an active transaction of a key that the transaction has written or
-- deleted, whose lock it holds and for which none of its own requests is queued, gives up that
-- lock: afterwards the transaction is still active with the write still pending, and it has no
-- lock on the key.
pub get_exposes_write :
    (others : Others) (key : Bytes) (entry : Bytes × Bool) (m : Manager) (w : Shared)
    → m.current_txn.isolation_level ≡ IsolationLevel.read_committed
    → is_active m.current_txn.state ≡ true
    → m.lock_manager ≡ true
    → lookup key m.current_txn.pending_buffer ≡ some entry
    → contains m.current_txn.txn_id (entry_in key w.locks.table).holders ≡ true
    → NoWaiter m.current_txn.txn_id (entry_in key w.locks.table).wait_queue
    → IsExposed key entry m.current_txn.txn_id (get others key m w).0.0 (get others key m w).0.1
unfolding get finish_get
get_exposes_write others key entry m w i a l p h n =
    let txn = m.current_txn in
    let (w', got) = acquire_lock others txn.txn_id key LockMode.shared w in
    let held : Manager = record m {
      current_txn = record txn { locks_held = insert key LockMode.shared txn.locks_held };
    } in
    let P : (Manager × Shared × Status) × Bytes → Type 0 =
      λ r. IsExposed key entry txn.txn_id r.0.0 r.0.1 in
    let exposed = read_done-IsExposed key entry held w' i a p (
      subst (λ e. NoWaiter txn.txn_id e.wait_queue)
        (sym (acquire_again-entry others txn.txn_id key w h)) n) in
    if_both P (not (is_active txn.state)) _ _ (λ x. absurd (ground arith))
      (λ _.
        if_both P (not m.lock_manager) _ _ (λ x. absurd (ground arith))
          (λ _.
            if_both P (not got) _ _
              (λ x. absurd (ground (arith, acquire_again others txn.txn_id key w h)))
              (λ _.
                if_both P (is_no_store (read_value key held w').0) _ _
                  (λ x. absurd (has_value key entry held w' p x)) (λ _. exposed))))
