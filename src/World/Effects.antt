-- ===== src/World/Effects.antt =====
-- What a step of a session does to the locks: a history of calls by its transaction alone.
use concurrent_transactional.Prelude.{
  ℕ, Bytes, ◌==◌, Bool, true, false, not, ◌&&◌, List, [], ◌∷◌, All, ◌≡◌, refl, ap, if_both,
  Bool-cases, inl, inr,
}
use concurrent_transactional.Prelude.Map.{insert, bytes_order}
use concurrent_transactional.Types.{LockMode, IsolationLevel, is_none}
use concurrent_transactional.Locks.{Locks, request, finish_wait}
use concurrent_transactional.Locks.Holds.{Spares}
use concurrent_transactional.Locks.History.{Event, asks, wakes, releases_all, step, run, AsksLock}
use concurrent_transactional.Wal.{log_abort}
use concurrent_transactional.Transaction.Replies.{Status}
use concurrent_transactional.Transaction.{
  Shared, Manager, is_active, is_no_store, begin, allocate_txn_id, finish_write, finish_get,
  read_done, read_value, release_all, end_commit, abort, abort_deadlocked,
}
use concurrent_transactional.World.{
  starts, requests, resumes, commits, passes, applies, aborts, is_granted, is_ready, Request,
  writes, reads, key_of, mode_of, Standing, ready, for_lock, for_flush, applying, Session, finish,
  request_lock, resume, start_commit, apply_next, Act, act,
}

-- It spares every other transaction.
abbrev pub By : ℕ → Event → Type 0
By u e = (t : ℕ) → (u == t) ≡ false → Spares t e

pub record Effect (u : ℕ) (l l' : Locks) : Type 0 where
  pub events : List Event
  pub asked : All AsksLock events
  pub own : All (By u) events
  pub result : l' ≡ run l events

pub no-Effect : (u : ℕ) (l : Locks) → Effect u l l
unfolding run
no-Effect u l = record { events = []; asked = tt; own = tt; result = refl }

one-Effect : (u : ℕ) (l : Locks) (e : Event) → AsksLock e → By u e → Effect u l (step l e)
unfolding run
one-Effect u l e a b = record { events = e ∷ []; asked = (a, tt); own = (b, tt); result = refl }

pub then-Effect :
    (u : ℕ) (l : Locks) (e : Event) (l' : Locks)
    → AsksLock e
    → By u e
    → Effect u (step l e) l'
    → Effect u l l'
unfolding run
then-Effect u l e l' a b f = record {
  events = e ∷ f.events;
  asked = (a, f.asked);
  own = (b, f.own);
  result = f.result;
}

mode_of-asked : (r : Request) → is_none (mode_of r) ≡ false
mode_of-asked (writes key entry) = refl
mode_of-asked (reads key) = refl

release_all-Effect : (m : Manager) (u : ℕ) (w : Shared) → Effect u w.locks (release_all m u w).locks
unfolding release_all step
release_all-Effect m u w =
    if_both (λ (x : Shared). Effect u w.locks x.locks) m.lock_manager _ _
      (λ b. one-Effect u w.locks (releases_all u) tt (λ t n. n)) (λ b. no-Effect u w.locks)

pub abort-Effect :
    (m : Manager) (w : Shared) → Effect m.current_txn.txn_id w.locks (abort m w).1.locks
unfolding abort
abort-Effect m w =
    let u = m.current_txn.txn_id in
    if_both (λ (x : Manager × Shared × Status). Effect u w.locks x.1.locks)
      (is_active m.current_txn.state) _ _
      (λ a.
        if_both (λ (x : Shared). Effect u w.locks (release_all m u x).locks) m.wal _ _
          (λ b. release_all-Effect m u (record w { wal = (log_abort u w.wal).0 }))
          (λ b. release_all-Effect m u w))
      (λ a. no-Effect u w.locks)

level_first :
    {A : Type 0} (l : IsolationLevel) (x y : A)
    → l ≡ IsolationLevel.repeatable_read
    → (elim l [ IsolationLevel.repeatable_read ↦ x | IsolationLevel.read_committed ↦ y ]) ≡ x
level_first IsolationLevel.repeatable_read x y h = refl
level_first IsolationLevel.read_committed x y h = cc

-- A read at REPEATABLE_READ releases nothing.
pub read_done_kept :
    (key : Bytes) (m : Manager) (w : Shared)
    → m.current_txn.isolation_level ≡ IsolationLevel.repeatable_read
    → read_done key m w ≡ (m, w)
unfolding read_done
read_done_kept key m w r = level_first m.current_txn.isolation_level _ _ r

-- A session that has read and got the lock.
abbrev pub reader : Bytes → Manager → Manager
reader key m = record m {
  current_txn = record m.current_txn {
    locks_held = insert key LockMode.shared m.current_txn.locks_held;
  };
}

pub finish_get_kept :
    (key : Bytes) (m : Manager) (w : Shared)
    → m.current_txn.isolation_level ≡ IsolationLevel.repeatable_read
    → ((finish_get key true m w).0.0 ≡ reader key m) × ((finish_get key true m w).0.1 ≡ w)
unfolding finish_get
finish_get_kept key m w r =
    let done = read_done_kept key (reader key m) w r in
    let P : (Manager × Shared × Status) × Bytes → Type 0 =
      λ x. (x.0.0 ≡ reader key m) × (x.0.1 ≡ w) in
    if_both P (is_no_store (read_value key (reader key m) w).0) _ _ (λ b. (refl, refl))
      (λ b. (ap (λ (x : Manager × Shared). x.0) done, ap (λ (x : Manager × Shared). x.1) done))

pub finish_kept :
    (r : Request) (m : Manager) (w : Shared)
    → m.current_txn.isolation_level ≡ IsolationLevel.repeatable_read
    → (finish r true m w).1 ≡ w
unfolding finish finish_write
finish_kept (writes key entry) m w h = refl
finish_kept (reads key) m w h = (finish_get_kept key m w h).1

pub finish_lost :
    (r : Request) (m : Manager) (w : Shared) → finish r false m w ≡ abort_deadlocked m w
unfolding finish finish_write finish_get
finish_lost (writes key entry) m w = refl
finish_lost (reads key) m w = refl

finish-Effect :
    (r : Request) (got : Bool) (m : Manager) (w : Shared)
    → m.current_txn.isolation_level ≡ IsolationLevel.repeatable_read
    → Effect m.current_txn.txn_id w.locks (finish r got m w).1.locks
unfolding abort_deadlocked
finish-Effect r true m w h = rw (finish_kept r m w h) (no-Effect m.current_txn.txn_id w.locks)
finish-Effect r false m w h = rw (finish_lost r m w) (abort-Effect m w)

request_lock-Effect :
    (r : Request) (s : Session) (w : Shared)
    → s.manager.current_txn.isolation_level ≡ IsolationLevel.repeatable_read
    → Effect s.manager.current_txn.txn_id w.locks (request_lock r s w).1.locks
unfolding request_lock step
request_lock-Effect r s w h =
    let u = s.manager.current_txn.txn_id in
    let (l, attempt) = request u (key_of r) (mode_of r) w.locks in
    if_both (λ (x : Session × Shared). Effect u w.locks x.1.locks) (is_granted attempt) _ _
      (λ b.
        then-Effect u w.locks (asks u (key_of r) (mode_of r)) _ (mode_of-asked r) (λ t n. tt)
          (finish-Effect r true s.manager (record w { locks = l }) h))
      (λ b. one-Effect u w.locks (asks u (key_of r) (mode_of r)) (mode_of-asked r) (λ t n. tt))

resume-Effect :
    (p : Standing) (s : Session) (w : Shared)
    → s.manager.current_txn.isolation_level ≡ IsolationLevel.repeatable_read
    → Effect s.manager.current_txn.txn_id w.locks (resume p s w).1.locks
unfolding resume step
resume-Effect ready s w h = no-Effect s.manager.current_txn.txn_id w.locks
resume-Effect (for_flush lsn) s w h = no-Effect s.manager.current_txn.txn_id w.locks
resume-Effect (applying rest) s w h = no-Effect s.manager.current_txn.txn_id w.locks
resume-Effect (for_lock r cell) s w h =
    let u = s.manager.current_txn.txn_id in
    let (l, got) = finish_wait u (key_of r) cell w.locks in
    then-Effect u w.locks (wakes u (key_of r) cell) _ tt (λ t n. tt)
      (finish-Effect r got s.manager (record w { locks = l }) h)

apply_next-Effect :
    (p : Standing) (s : Session) (w : Shared)
    → Effect s.manager.current_txn.txn_id w.locks (apply_next p s w).1.locks
unfolding apply_next end_commit
apply_next-Effect ready s w = no-Effect s.manager.current_txn.txn_id w.locks
apply_next-Effect (for_lock r cell) s w = no-Effect s.manager.current_txn.txn_id w.locks
apply_next-Effect (for_flush lsn) s w = no-Effect s.manager.current_txn.txn_id w.locks
apply_next-Effect (applying []) s w = release_all-Effect s.manager s.manager.current_txn.txn_id w
apply_next-Effect (applying (entry ∷ rest)) s w = no-Effect s.manager.current_txn.txn_id w.locks

begin-locks :
    (level : IsolationLevel) (m : Manager) (w : Shared) → (begin level m w).1.locks ≡ w.locks
unfolding begin allocate_txn_id
begin-locks level m w =
    let P : Manager × Shared × Status → Type 0 = λ x. x.1.locks ≡ w.locks in
    if_both P (is_active m.current_txn.state) _ _ (λ a. refl)
      (λ a.
        if_both P (not m.server) _ _ (λ b. refl)
          (λ b. if_both (λ (x : Shared). x.locks ≡ w.locks) m.wal _ _ (λ c. refl) (λ c. refl)))

pub both-true : (a b : Bool) → (a && b) ≡ true → b ≡ true
both-true true b h = h
both-true false b h = cc

-- Every step of a session whose transaction, if it has one, is at REPEATABLE_READ, and that waits for
-- nothing without a transaction.
pub act-Effect :
    (a : Act) (s : Session) (w : Shared)
    → (is_active s.manager.current_txn.state ≡ true
        → s.manager.current_txn.isolation_level ≡ IsolationLevel.repeatable_read)
    → (is_active s.manager.current_txn.state ≡ false → s.standing ≡ ready)
    → Effect s.manager.current_txn.txn_id w.locks (act a s w).1.locks
unfolding act start_commit resume
act-Effect (starts level) s w h g =
    let u = s.manager.current_txn.txn_id in
    if_both (λ (x : Session × Shared). Effect u w.locks x.1.locks) (is_ready s.standing) _ _
      (λ b. rw (begin-locks level s.manager w) (no-Effect u w.locks)) (λ b. no-Effect u w.locks)
act-Effect (requests r) s w h g =
    let u = s.manager.current_txn.txn_id in
    if_both (λ (x : Session × Shared). Effect u w.locks x.1.locks)
      (is_ready s.standing && is_active s.manager.current_txn.state) _ _
      (λ b. request_lock-Effect r s w (h (both-true (is_ready s.standing) _ b)))
      (λ b. no-Effect u w.locks)
act-Effect resumes s w h g = elim (Bool-cases (is_active s.manager.current_txn.state)) [
  | inl a ↦ resume-Effect s.standing s w (h a)
  | inr i ↦ rw (g i) (no-Effect s.manager.current_txn.txn_id w.locks)
]
act-Effect commits s w h g =
    let u = s.manager.current_txn.txn_id in
    if_both (λ (x : Session × Shared). Effect u w.locks x.1.locks)
      (is_ready s.standing && is_active s.manager.current_txn.state) _ _ (λ b. no-Effect u w.locks)
      (λ b. no-Effect u w.locks)
act-Effect passes s w h g = no-Effect s.manager.current_txn.txn_id w.locks
act-Effect applies s w h g = apply_next-Effect s.standing s w
act-Effect aborts s w h g =
    let u = s.manager.current_txn.txn_id in
    if_both (λ (x : Session × Shared). Effect u w.locks x.1.locks) (is_ready s.standing) _ _
      (λ b. abort-Effect s.manager w) (λ b. no-Effect u w.locks)

-- A session without a transaction leaves the locks alone.
pub act_idle-locks :
    (a : Act) (s : Session) (w : Shared)
    → is_active s.manager.current_txn.state ≡ false
    → s.standing ≡ ready
    → (act a s w).1.locks ≡ w.locks
unfolding act start_commit resume apply_next abort
act_idle-locks (starts level) s w i e =
    if_both (λ (x : Session × Shared). x.1.locks ≡ w.locks) (is_ready s.standing) _ _
      (λ b. begin-locks level s.manager w) (λ b. refl)
act_idle-locks (requests r) s w i e =
    if_both (λ (x : Session × Shared). x.1.locks ≡ w.locks)
      (is_ready s.standing && is_active s.manager.current_txn.state) _ _
      (λ b. absurd (cc (i, both-true (is_ready s.standing) _ b))) (λ b. refl)
act_idle-locks resumes s w i e = rw e refl
act_idle-locks commits s w i e =
    if_both (λ (x : Session × Shared). x.1.locks ≡ w.locks)
      (is_ready s.standing && is_active s.manager.current_txn.state) _ _ (λ b. refl) (λ b. refl)
act_idle-locks passes s w i e = refl
act_idle-locks applies s w i e = rw e refl
act_idle-locks aborts s w i e =
    if_both (λ (x : Session × Shared). x.1.locks ≡ w.locks) (is_ready s.standing) _ _
      (λ b.
        if_both (λ (x : Manager × Shared × Status). x.1.locks ≡ w.locks)
          (is_active s.manager.current_txn.state) _ _ (λ a. absurd (cc (i, a))) (λ a. refl))
      (λ b. refl)
