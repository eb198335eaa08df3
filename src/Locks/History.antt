-- ===== src/Locks/History.antt =====
-- The lock manager under any history of calls: what the threads of the server do, one atomic part
-- after another, and the invariant that all histories keep.
use concurrent_transactional.Prelude.{
  ℕ, Bytes, bytes_eq, bytes_eq_iff, false, List, [], ◌∷◌, All, ◌≡◌, Bool-cases, inl, inr,
}
use concurrent_transactional.Prelude.Map.{lookup, insert, bytes_order}
use concurrent_transactional.Types.{LockMode, is_none}
use concurrent_transactional.Locks.Entry.{LockEntry, is_abandoned}
use concurrent_transactional.Locks.Consistent.{
  IsConsistent, fresh-IsConsistent, request_entry-IsConsistent, release_entry-IsConsistent,
  drop_waiters-IsConsistent,
}
use concurrent_transactional.Locks.Table.{entry_in-insert, release_lock-P, release_all_locks-P}
use concurrent_transactional.Locks.{
  Locks, initial, entry_in, request, finish_wait, release_lock, release_all_locks,
}

pub data Event : Type 0 where
  asks : ℕ → Bytes → LockMode → Event
  wakes : ℕ → Bytes → ℕ → Event
  releases : ℕ → Bytes → Event
  releases_all : ℕ → Event

unfoldable pub step : Locks → Event → Locks
step l (asks txn key mode) = (request txn key mode l).0
step l (wakes txn key cell) = (finish_wait txn key cell l).0
step l (releases txn key) = release_lock txn key l
step l (releases_all txn) = release_all_locks txn l

unfoldable pub run : Locks → List Event → Locks
run l [] = l
run l (e ∷ es) = run (step l e) es

-- `NONE` is never asked for: the callers ask for `SHARED` or `EXCLUSIVE`.
abbrev pub AsksLock : Event → Type 0
AsksLock (asks txn key mode) = is_none mode ≡ false
AsksLock (wakes txn key cell) = Unit
AsksLock (releases txn key) = Unit
AsksLock (releases_all txn) = Unit

-- Every entry is well formed.
pub record IsSound (l : Locks) : Type 0 where
  pub at : (k : Bytes) → IsConsistent (entry_in k l.table)

pub initial-IsSound : IsSound initial
unfolding initial entry_in lookup
initial-IsSound = record { at = λ k. fresh-IsConsistent }

-- A write of a well-formed entry.
pub at_insert :
    (P : LockEntry → Type 0) (j k : Bytes) (e : LockEntry) (l : Locks)
    → (k ≡ j → P e)
    → P (entry_in j l.table)
    → P (entry_in j (insert k e l.table))
at_insert P j k e l pe h = elim (Bool-cases (bytes_eq k j)) [
  | inl s ↦ rw (entry_in-insert, s) (pe ((bytes_eq_iff k j).0 s))
  | inr d ↦ rw (entry_in-insert, d) h
]

finish_wait-IsSound :
    (txn : ℕ) (key : Bytes) (cell : ℕ) (l : Locks)
    → IsSound l
    → IsSound (finish_wait txn key cell l).0
unfolding finish_wait
finish_wait-IsSound txn key cell l s = elim (Bool-cases (is_abandoned (l.flags cell))) [
  | inl b ↦ rw b (record {
    at = λ j.
        at_insert IsConsistent j key _ l
          (λ e. drop_waiters-IsConsistent txn (entry_in key l.table) (s.at key)) (s.at j);
  })
  | inr b ↦ rw b s
]

pub step-IsSound : (l : Locks) (e : Event) → AsksLock e → IsSound l → IsSound (step l e)
unfolding step request
step-IsSound l (asks txn key mode) a s = record {
  at = λ j.
      at_insert IsConsistent j key _ l
        (λ e. request_entry-IsConsistent txn mode l.next_cell (entry_in key l.table) a (s.at key))
        (s.at j);
}
step-IsSound l (wakes txn key cell) a s = finish_wait-IsSound txn key cell l s
step-IsSound l (releases txn key) a s = record {
  at = λ j.
      release_lock-P IsConsistent txn (release_entry-IsConsistent txn) (λ e c u. fresh-IsConsistent)
        j key l (s.at j);
}
step-IsSound l (releases_all txn) a s = record {
  at = λ j.
      release_all_locks-P IsConsistent txn (release_entry-IsConsistent txn)
        (λ e c u. fresh-IsConsistent) j l (s.at j);
}

pub run-IsSound : (l : Locks) (es : List Event) → All AsksLock es → IsSound l → IsSound (run l es)
unfolding run
run-IsSound l [] a s = s
run-IsSound l (e ∷ es) a s = run-IsSound (step l e) es a.1 (step-IsSound l e a.0 s)
