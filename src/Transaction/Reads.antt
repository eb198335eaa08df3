-- ===== src/Transaction/Reads.antt =====
-- A transaction reads what it wrote.
use concurrent_transactional.Prelude.{
  ℕ, Bytes, Bool, true, not, some, [], ◌≡◌, refl, arith, if◌then◌else◌, if_both, Bool-cases, inl,
  inr,
}
use concurrent_transactional.Prelude.Map.{lookup, insert, bytes_order}
use concurrent_transactional.Types.{LockMode, is_exclusive}
use concurrent_transactional.Locks.{entry_in, request}
use concurrent_transactional.Locks.Entry.{contains, request_entry, LockEntry, Attempt}
use concurrent_transactional.Transaction.Replies.{Status}
use concurrent_transactional.Transaction.{finish_get}
use concurrent_transactional.Transaction.{
  Shared, Manager, Others, is_active, get, acquire_lock, is_no_store, read_value,
}

-- A holder's request for a shared lock is granted without a wait.
pub shared_again :
    (txn cell : ℕ) (e : LockEntry)
    → contains txn e.holders ≡ true
    → request_entry txn LockMode.shared cell e ≡ (e, Attempt.granted)
unfolding request_entry
shared_again txn cell e h = elim (Bool-cases (is_exclusive e.current_mode)) [
  | inl x ↦ rw (h, x) refl
  | inr x ↦ rw (h, x) refl
]

pub acquire_again :
    (others : Others) (id : ℕ) (key : Bytes) (w : Shared)
    → contains id (entry_in key w.locks.table).holders ≡ true
    → (acquire_lock others id key LockMode.shared w).1 ≡ true
unfolding acquire_lock request
acquire_again others id key w h =
    rw (acquire_lock, shared_again id w.locks.next_cell (entry_in key w.locks.table) h) refl

-- What a read answers for a key in the buffer.
unfoldable pub answer_of : Bytes × Bool → Status × Bytes
answer_of entry = if entry.1 then (Status.deleted_here, []) else (Status.success, entry.0)

-- A read in an active transaction of a key that the transaction wrote or deleted, while it holds
-- the key's lock: it does not wait, and answers the value that was written last, or that the key
-- was deleted, whatever the table has and whatever the isolation level.
pub get-own_write :
    (others : Others) (key : Bytes) (entry : Bytes × Bool) (m : Manager) (w : Shared)
    → is_active m.current_txn.state ≡ true
    → m.lock_manager ≡ true
    → lookup key m.current_txn.pending_buffer ≡ some entry
    → contains m.current_txn.txn_id (entry_in key w.locks.table).holders ≡ true
    → ((get others key m w).0.2, (get others key m w).1) ≡ answer_of entry
unfolding get finish_get read_value answer_of
get-own_write others key entry m w a l p h =
    let txn = m.current_txn in
    let (w', got) = acquire_lock others txn.txn_id key LockMode.shared w in
    let held : Manager = record m {
      current_txn = record txn { locks_held = insert key LockMode.shared txn.locks_held };
    } in
    let found : read_value key held w' ≡ answer_of entry = rw (read_value, p) refl in
    let P : (Manager × Shared × Status) × Bytes → Type 0 = λ r. (r.0.2, r.1) ≡ answer_of entry in
    if_both P (not (is_active txn.state)) _ _ (λ x. absurd (ground arith))
      (λ _.
        if_both P (not m.lock_manager) _ _ (λ x. absurd (ground arith))
          (λ _.
            if_both P (not got) _ _
              (λ x. absurd (ground (arith, acquire_again others txn.txn_id key w h)))
              (λ _.
                if_both P (is_no_store (read_value key held w').0) _ _ (λ _. found) (λ _. found))))
