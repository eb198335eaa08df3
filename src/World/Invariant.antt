-- ===== src/World/Invariant.antt =====
-- What holds of every session and of the locks, as long as every transaction is at REPEATABLE_READ.
use concurrent_transactional.Prelude.{ℕ, ◌<◌, Bytes, ◌==◌, true, false, List, [], ◌∷◌, All, ◌≡◌}
use concurrent_transactional.Types.{LockMode, IsolationLevel}
use concurrent_transactional.Locks.{Locks, entry_in}
use concurrent_transactional.Locks.Holds.{Holds, Spares, step-Holds}
use concurrent_transactional.Locks.Tickets.{Ticket, step-Ticket}
use concurrent_transactional.Locks.Numbers.{IsNumbered, step-IsNumbered}
use concurrent_transactional.Locks.History.{Event, step, run, IsSound, run-IsSound}
use concurrent_transactional.Transaction.{Shared, Manager, is_active}
use concurrent_transactional.Transaction.Commit.{IsConnected}
use concurrent_transactional.World.{
  key_of, mode_of, Standing, ready, for_lock, for_flush, applying, Session, World,
}
use concurrent_transactional.World.Effects.{By, Effect}

-- The transaction has the lock on every key of the list.
abbrev pub HoldsAll {ℓ} : {V : Type ℓ} → ℕ → LockMode → Locks → List (Bytes × V) → Type ℓ
HoldsAll t mode l [] = Unit
HoldsAll t mode l (p ∷ m) = Holds t mode (entry_in p.0 l.table) × HoldsAll t mode l m

abbrev pub Promise : ℕ → Standing → Locks → Type 0
Promise t ready l = Unit
Promise t (for_lock r cell) l = Ticket t (mode_of r) (key_of r) cell l
Promise t (for_flush lsn) l = Unit
Promise t (applying rest) l = HoldsAll t LockMode.exclusive l rest

-- An active transaction has every key it wrote exclusively, and every key it read.
pub record IsLocked (m : Manager) (p : Standing) (l : Locks) : Type 0 where
  pub level : m.current_txn.isolation_level ≡ IsolationLevel.repeatable_read
  pub writes : HoldsAll m.current_txn.txn_id LockMode.exclusive l m.current_txn.pending_buffer
  pub reads : HoldsAll m.current_txn.txn_id LockMode.shared l m.current_txn.locks_held
  pub waits : Promise m.current_txn.txn_id p l

pub record IsSteady (s : Session) (w : Shared) : Type 0 where
  pub connected : IsConnected s.manager
  pub idle : is_active s.manager.current_txn.state ≡ false → s.standing ≡ ready
  pub locked : is_active s.manager.current_txn.state ≡ true → IsLocked s.manager s.standing w.locks
  pub numbered :
      is_active s.manager.current_txn.state ≡ true → s.manager.current_txn.txn_id < w.next_txn_id

pub record IsOrderly (v : World) : Type 0 where
  pub steady : (i : ℕ) → IsSteady (v.sessions i) v.shared
  pub distinct :
      (i j : ℕ)
      → is_active (v.sessions i).manager.current_txn.state ≡ true
      → is_active (v.sessions j).manager.current_txn.state ≡ true
      → (v.sessions i).manager.current_txn.txn_id ≡ (v.sessions j).manager.current_txn.txn_id
      → i ≡ j
  pub sound : IsSound v.shared.locks
  pub cells : IsNumbered v.shared.locks

pub step-HoldsAll {ℓ} :
    {V : Type ℓ} (t : ℕ) (mode : LockMode) (l : Locks) (e : Event) (m : List (Bytes × V))
    → Spares t e
    → HoldsAll t mode l m
    → HoldsAll t mode (step l e) m
step-HoldsAll t mode l e [] s h = tt
step-HoldsAll t mode l e (p ∷ m) s (a, h) =
    (step-Holds t mode p.0 l e s a, step-HoldsAll t mode l e m s h)

step-Promise :
    (t : ℕ) (p : Standing) (l : Locks) (e : Event)
    → Spares t e
    → Promise t p l
    → Promise t p (step l e)
step-Promise t ready l e s h = tt
step-Promise t (for_lock r cell) l e s h = step-Ticket t (mode_of r) (key_of r) cell l e s h
step-Promise t (for_flush lsn) l e s h = tt
step-Promise t (applying rest) l e s h = step-HoldsAll t LockMode.exclusive l e rest s h

pub step-IsLocked :
    (m : Manager) (p : Standing) (l : Locks) (e : Event)
    → Spares m.current_txn.txn_id e
    → IsLocked m p l
    → IsLocked m p (step l e)
step-IsLocked m p l e s h = record {
  level = h.level;
  writes =
      step-HoldsAll m.current_txn.txn_id LockMode.exclusive l e m.current_txn.pending_buffer s
        h.writes;
  reads = step-HoldsAll m.current_txn.txn_id LockMode.shared l e m.current_txn.locks_held s h.reads;
  waits = step-Promise m.current_txn.txn_id p l e s h.waits;
}

run-IsLocked :
    (u : ℕ) (m : Manager) (p : Standing) (l : Locks) (es : List Event)
    → (u == m.current_txn.txn_id) ≡ false
    → All (By u) es
    → IsLocked m p l
    → IsLocked m p (run l es)
unfolding run
run-IsLocked u m p l [] n b h = h
run-IsLocked u m p l (e ∷ es) n (a, b) h =
    run-IsLocked u m p (step l e) es n b (step-IsLocked m p l e (a m.current_txn.txn_id n) h)

-- The steps of another transaction take nothing from an active one.
pub Effect-IsLocked :
    (u : ℕ) (m : Manager) (p : Standing) (l l' : Locks)
    → (u == m.current_txn.txn_id) ≡ false
    → Effect u l l'
    → IsLocked m p l
    → IsLocked m p l'
Effect-IsLocked u m p l l' n f h = rw (f.result) (run-IsLocked u m p l f.events n f.own h)

pub Effect-IsSound : (u : ℕ) (l l' : Locks) → Effect u l l' → IsSound l → IsSound l'
Effect-IsSound u l l' f h = rw (f.result) (run-IsSound l f.events f.asked h)

run-IsNumbered : (l : Locks) (es : List Event) → IsNumbered l → IsNumbered (run l es)
unfolding run
run-IsNumbered l [] h = h
run-IsNumbered l (e ∷ es) h = run-IsNumbered (step l e) es (step-IsNumbered l e h)

pub Effect-IsNumbered : (u : ℕ) (l l' : Locks) → Effect u l l' → IsNumbered l → IsNumbered l'
Effect-IsNumbered u l l' f h = rw (f.result) (run-IsNumbered l f.events h)
