-- ===== src/World/Held.antt =====
-- What a transaction has locked and written, through the ends of its calls.
use concurrent_transactional.Prelude.{
  Bytes, bytes_eq, bytes_eq_refl, Bool, true, false, not, ◌≡◌, refl, arith, sym, subst, if_both,
  Bool-cases, inl, inr, some,
}
use concurrent_transactional.Prelude.Map.{Map, lookup, insert, lookup-insert, bytes_order}
use concurrent_transactional.Prelude.Sorted.{Sorted, insert-Sorted}
use concurrent_transactional.Types.{LockMode, IsolationLevel}
use concurrent_transactional.Transaction.Replies.{Status}
use concurrent_transactional.Transaction.{
  Shared, Manager, is_active, begin, abort, abort_deadlocked, finish_write,
}
use concurrent_transactional.World.{Request, writes, reads, Session, finish}
use concurrent_transactional.World.Effects.{finish_get_kept, finish_lost}
use concurrent_transactional.World.Ids.{abort_inactive}

abbrev pub pending_of : Session → Map Bytes (Bytes × Bool)
pending_of s = s.manager.current_txn.pending_buffer

-- The transaction of the session has locked the key.
abbrev pub HasLocked : Bytes → Manager → Type 0
HasLocked k m = (mode : LockMode) × (lookup k m.current_txn.locks_held ≡ some mode)

pub abort-Sorted :
    (m : Manager) (w : Shared)
    → Sorted m.current_txn.pending_buffer
    → Sorted (abort m w).0.current_txn.pending_buffer
unfolding abort
abort-Sorted m w h =
    if_both (λ (x : Manager × Shared × Status). Sorted x.0.current_txn.pending_buffer)
      (is_active m.current_txn.state) _ _ (λ a. tt) (λ a. h)

insert-Has :
    (k j : Bytes) (mode : LockMode) (m : Map Bytes LockMode)
    → ((x : LockMode) × (lookup k m ≡ some x))
    → (x : LockMode) × (lookup k (insert j mode m) ≡ some x)
insert-Has k j mode m (x, e) = elim (Bool-cases (bytes_eq j k)) [
  | inl s ↦ (mode, ground (arith, lookup-insert j k mode m, s))
  | inr d ↦ (x, ground (arith, lookup-insert j k mode m, d, e))
]

pub finish-Sorted :
    (r : Request) (got : Bool) (m : Manager) (v : Shared)
    → m.current_txn.isolation_level ≡ IsolationLevel.repeatable_read
    → Sorted m.current_txn.pending_buffer
    → Sorted (finish r got m v).0.current_txn.pending_buffer
unfolding finish finish_write abort_deadlocked
finish-Sorted r false m v h g = rw (finish_lost r m v) (abort-Sorted m v g)
finish-Sorted (writes key entry) true m v h g =
    insert-Sorted key entry m.current_txn.pending_buffer g
finish-Sorted (reads key) true m v h g =
    subst (λ (x : Manager). Sorted x.current_txn.pending_buffer)
      (sym ((finish_get_kept key m v h).0)) g

finish-lost_inactive :
    (r : Request) (m : Manager) (v : Shared)
    → is_active (finish r false m v).0.current_txn.state ≡ false
unfolding abort_deadlocked
finish-lost_inactive r m v = rw (finish_lost r m v) (abort_inactive m v)

pub finish-Has :
    (r : Request) (got : Bool) (m : Manager) (v : Shared)
    → m.current_txn.isolation_level ≡ IsolationLevel.repeatable_read
    → is_active m.current_txn.state ≡ true
    → is_active (finish r got m v).0.current_txn.state ≡ true
    → (k : Bytes) → HasLocked k m
    → HasLocked k (finish r got m v).0
unfolding finish finish_write
finish-Has r false m v h a b k g = absurd (cc (finish-lost_inactive r m v, b))
finish-Has (writes key entry) true m v h a b k g =
    insert-Has k key LockMode.exclusive m.current_txn.locks_held g
finish-Has (reads key) true m v h a b k g =
    subst (HasLocked k) (sym ((finish_get_kept key m v h).0))
      (insert-Has k key LockMode.shared m.current_txn.locks_held g)

-- What a `get` that goes on has locked.
pub finish-key :
    (key : Bytes) (got : Bool) (m : Manager) (v : Shared)
    → m.current_txn.isolation_level ≡ IsolationLevel.repeatable_read
    → is_active (finish (reads key) got m v).0.current_txn.state ≡ true
    → HasLocked key (finish (reads key) got m v).0
unfolding finish
finish-key key false m v h b = absurd (cc (finish-lost_inactive (reads key) m v, b))
finish-key key true m v h b =
    subst (HasLocked key) (sym ((finish_get_kept key m v h).0)) (LockMode.shared, inserted)
  where
    inserted :
        lookup key (insert key LockMode.shared m.current_txn.locks_held) ≡ some LockMode.shared
    inserted =
        ground
          (arith, lookup-insert key key LockMode.shared m.current_txn.locks_held, bytes_eq_refl key)

-- `begin` in a transaction changes nothing.
pub begin-kept :
    (level : IsolationLevel) (m : Manager) (w : Shared)
    → is_active m.current_txn.state ≡ true
    → (begin level m w).0 ≡ m
unfolding begin
begin-kept level m w a = rw a refl

pub begin-Sorted :
    (level : IsolationLevel) (m : Manager) (w : Shared)
    → Sorted m.current_txn.pending_buffer
    → Sorted (begin level m w).0.current_txn.pending_buffer
unfolding begin
begin-Sorted level m w h =
    let P : Manager × Shared × Status → Type 0 = λ x. Sorted x.0.current_txn.pending_buffer in
    if_both P (is_active m.current_txn.state) _ _ (λ a. h)
      (λ a. if_both P (not m.server) _ _ (λ b. h) (λ b. tt))
