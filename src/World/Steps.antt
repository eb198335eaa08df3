-- ===== src/World/Steps.antt =====
-- A session keeps its part of the invariant through its own steps.
use concurrent_transactional.Prelude.{ℕ, ◌<◌, Bytes, Bool, true, false, [], ◌∷◌, ◌≡◌, refl, if_both}
use concurrent_transactional.Prelude.Map.{Map, insert, bytes_order}
use concurrent_transactional.Prelude.Text.{bytes_eq, bytes_lt}
use concurrent_transactional.Types.{LockMode}
use concurrent_transactional.Locks.{Locks, entry_in}
use concurrent_transactional.Locks.Entry.{LockEntry}
use concurrent_transactional.Locks.Holds.{Holds}
use concurrent_transactional.Transaction.Replies.{Status}
use concurrent_transactional.Transaction.{
  Shared, Manager, is_active, abort, abort_deadlocked, finish_write, idle_txn,
}
use concurrent_transactional.Transaction.Commit.{IsConnected}
use concurrent_transactional.World.{
  Request, writes, reads, key_of, mode_of, Standing, ready, finish,
}
use concurrent_transactional.World.Effects.{reader, finish_get_kept, finish_lost}
use concurrent_transactional.World.Invariant.{HoldsAll, IsLocked, IsSteady}

insert-HoldsAll :
    {V : Type 0} (t : ℕ) (mode : LockMode) (l : Locks) (k : Bytes) (v : V) (m : Map Bytes V)
    → Holds t mode (entry_in k l.table)
    → HoldsAll t mode l m
    → HoldsAll t mode l (insert k v m)
unfolding insert
insert-HoldsAll t mode l k v [] a h = (a, tt)
insert-HoldsAll t mode l k v ((j, x) ∷ m) a (b, h) =
    if_both (HoldsAll t mode l) (bytes_eq j k) _ _ (λ c. (a, h))
      (λ c.
        if_both (HoldsAll t mode l) (bytes_lt k j) _ _ (λ d. (a, (b, h)))
          (λ d. (b, insert-HoldsAll t mode l k v m a h)))

pub Holds-shared :
    (t : ℕ) (e : LockEntry) → Holds t LockMode.exclusive e → Holds t LockMode.shared e
Holds-shared t e h = record { holder = h.holder; strong = λ x. cc x }

-- A session without a transaction.
pub idle-IsSteady :
    (m : Manager) (w : Shared)
    → IsConnected m
    → is_active m.current_txn.state ≡ false
    → IsSteady (record { manager = m; standing = ready }) w
idle-IsSteady m w c i = record {
  connected = c;
  idle = λ x. refl;
  locked = λ a. absurd (cc (i, a));
  numbered = λ a. absurd (cc (i, a));
}

pub reset-IsConnected :
    (m : Manager) → IsConnected m → IsConnected (record m { current_txn = idle_txn m.session_id })
reset-IsConnected m c = record {
  server_set = c.server_set;
  store_set = c.store_set;
  lock_manager_set = c.lock_manager_set;
  wal_set = c.wal_set;
  group_commit_set = c.group_commit_set;
}

pub abort-IsSteady :
    (m : Manager) (w w' : Shared)
    → IsConnected m
    → IsSteady (record { manager = (abort m w).0; standing = ready }) w'
unfolding abort
abort-IsSteady m w w' c =
    if_both
      (λ (x : Manager × Shared × Status). IsSteady (record { manager = x.0; standing = ready }) w')
      (is_active m.current_txn.state) _ _ (λ a. idle-IsSteady _ w' (reset-IsConnected m c) refl)
      (λ i. idle-IsSteady m w' c i)

module _ (m : Manager) (w : Shared) (c : IsConnected m) (a : is_active m.current_txn.state ≡ true)
    (p : Standing) (h : IsLocked m p w.locks) (n : m.current_txn.txn_id < w.next_txn_id) where
  write-IsSteady :
      (key : Bytes) (entry : Bytes × Bool)
      → Holds m.current_txn.txn_id LockMode.exclusive (entry_in key w.locks.table)
      → IsSteady (record { manager = (finish_write key entry true m w).0; standing = ready }) w
  unfolding finish_write
  write-IsSteady key entry g =
      let t = m.current_txn.txn_id in
      record {
        connected = record {
          server_set = c.server_set;
          store_set = c.store_set;
          lock_manager_set = c.lock_manager_set;
          wal_set = c.wal_set;
          group_commit_set = c.group_commit_set;
        };
        idle = λ x. refl;
        locked = λ x. record {
          level = h.level;
          writes =
              insert-HoldsAll t LockMode.exclusive w.locks key entry m.current_txn.pending_buffer g
                h.writes;
          reads =
              insert-HoldsAll t LockMode.shared w.locks key LockMode.exclusive
                m.current_txn.locks_held (Holds-shared t _ g) h.reads;
          waits = tt;
        };
        numbered = λ x. n;
      }

  reader-IsSteady :
      (key : Bytes)
      → Holds m.current_txn.txn_id LockMode.shared (entry_in key w.locks.table)
      → IsSteady (record { manager = reader key m; standing = ready }) w
  reader-IsSteady key g =
      let t = m.current_txn.txn_id in
      record {
        connected = record {
          server_set = c.server_set;
          store_set = c.store_set;
          lock_manager_set = c.lock_manager_set;
          wal_set = c.wal_set;
          group_commit_set = c.group_commit_set;
        };
        idle = λ x. refl;
        locked = λ x. record {
          level = h.level;
          writes = h.writes;
          reads =
              insert-HoldsAll t LockMode.shared w.locks key LockMode.shared m.current_txn.locks_held
                g h.reads;
          waits = tt;
        };
        numbered = λ x. n;
      }

  -- The end of a method, from the answer of the lock manager.
  pub finish-IsSteady :
      (r : Request) (got : Bool)
      → (got ≡ true → Holds m.current_txn.txn_id (mode_of r) (entry_in (key_of r) w.locks.table))
      → IsSteady (record { manager = (finish r got m w).0; standing = ready }) (finish r got m w).1
  unfolding finish finish_write abort_deadlocked
  finish-IsSteady r false g =
      let x = abort-IsSteady m w (abort m w).1 c in
      rw (finish_lost r m w) (record {
        connected = record {
          server_set = x.connected.server_set;
          store_set = x.connected.store_set;
          lock_manager_set = x.connected.lock_manager_set;
          wal_set = x.connected.wal_set;
          group_commit_set = x.connected.group_commit_set;
        };
        idle = x.idle;
        locked = λ y. record {
          level = (x.locked y).level;
          writes = (x.locked y).writes;
          reads = (x.locked y).reads;
          waits = tt;
        };
        numbered = x.numbered;
      })
  finish-IsSteady (writes key entry) true g = write-IsSteady key entry (g refl)
  finish-IsSteady (reads key) true g =
      let (e, f) = finish_get_kept key m w h.level in rw (e, f) (reader-IsSteady key (g refl))
