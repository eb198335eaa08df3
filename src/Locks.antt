-- ===== src/Locks.antt =====
-- src/core/lock_manager.h and src/core/lock_manager.cpp, with `LockWaiter` and `LockEntry` of
-- include/kvdb.h. `lock_table_mutex_` makes each part below atomic; `acquireLock` gives it up in
-- `wait_for` only, so it is two parts: `request`, up to the wait, and `finish_wait`, after it.
-- The `shared_ptr<bool>` flags of a waiter live in `flags`, at the waiter's `cell`.
pub mod Entry
pub mod Consistent
pub mod Table
pub mod History
pub mod Exclusion
pub mod Release
pub mod ReleaseAll
pub mod Holds
pub mod Queues
pub mod Releases
pub mod Grants
pub mod Tickets
pub mod Numbers
pub mod Upgrade
pub mod HandOver
use concurrent_transactional.Prelude.{
  ℕ, ◌+◌, ◌==◌, Bytes, Bool, true, false, ◌&&◌, Option, some, List, [], ◌∷◌, ◌++◌, length, is_empty,
  not, ◌||◌, if◌then◌else◌,
}
use concurrent_transactional.Prelude.Map.{Map, lookup, insert, erase, bytes_order}
use concurrent_transactional.Types.{LockMode}
use Entry.{request_entry, release_entry, contains}
use Entry.{Flags, Cells, Waiter, LockEntry, Attempt, fresh, Released, is_abandoned, drop_waiters}

pub record Locks : Type 0 where
  pub table : Map Bytes LockEntry
  pub flags : Cells
  pub next_cell : ℕ

abbrev no_flags : Flags
no_flags = record { granted = false; deadlocked = false }

unfoldable pub initial : Locks
initial = record { table = []; flags = λ c. no_flags; next_cell = 0 }

-- `lock_table_[key]`, which makes an entry where there is none.
unfoldable pub entry_in : Bytes → Map Bytes LockEntry → LockEntry
entry_in key table = elim (lookup key table) [ Option.none ↦ fresh | some e ↦ e ]

-- `acquireLock` up to its return without waiting, or up to `wait_for`.
unfoldable pub request : ℕ → Bytes → LockMode → Locks → Locks × Attempt
request txn key mode l =
    let (e, a) = request_entry txn mode l.next_cell (entry_in key l.table) in
    (record { table = insert key e l.table; flags = l.flags; next_cell = l.next_cell + 1 }, a)

-- `acquireLock` from the return of `wait_for`, by its predicate or by the timeout.
unfoldable pub finish_wait : ℕ → Bytes → ℕ → Locks → Locks × Bool
finish_wait txn key cell l =
    if is_abandoned (l.flags cell)
    then (record l { table = insert key (drop_waiters txn (entry_in key l.table)) l.table }, false)
    else (l, true)

abbrev pub unused : LockEntry → Bool
unused e = is_empty e.holders && is_empty e.wait_queue

-- The body of the release for an entry that was found: the entry is written back.
unfoldable pub release_found : ℕ → Bytes → LockEntry → Locks → Locks × Bool
release_found txn key e l =
    let r = release_entry txn e l.flags in
    (record l { table = insert key r.entry l.table; flags = r.flags }, r.emptied && unused r.entry)

unfoldable pub release_lock : ℕ → Bytes → Locks → Locks
release_lock txn key l = elim (lookup key l.table) [
  | Option.none ↦ l
  | some e ↦
      let (l', gone) = release_found txn key e l in
      if gone then record l' { table = erase key l'.table } else l'
]

-- The first loop of `releaseAllLocks`.
unfoldable pub keys_to_process : ℕ → Map Bytes LockEntry → List Bytes
keys_to_process txn [] = []
keys_to_process txn ((k, e) ∷ m) =
    let rest = keys_to_process txn m in if contains txn e.holders then k ∷ rest else rest

-- The second loop, which collects `keys_to_erase`.
unfoldable pub process_keys : ℕ → List Bytes → Locks → Locks × List Bytes
process_keys txn [] l = (l, [])
process_keys txn (k ∷ ks) l = elim (lookup k l.table) [
  | Option.none ↦ process_keys txn ks l
  | some e ↦
      let (l', gone) = release_found txn k e l in
      let (l'', erased) = process_keys txn ks l' in (l'', if gone then k ∷ erased else erased)
]

-- The third loop.
unfoldable pub erase_keys : List Bytes → Map Bytes LockEntry → Map Bytes LockEntry
erase_keys [] m = m
erase_keys (k ∷ ks) m = erase_keys ks (erase k m)

unfoldable pub release_all_locks : ℕ → Locks → Locks
release_all_locks txn l =
    let (l', erased) = process_keys txn (keys_to_process txn l.table) l in
    record l' { table = erase_keys erased l'.table }

unfoldable pub has_lock : ℕ → Bytes → Locks → LockMode
has_lock txn key l = elim (lookup key l.table) [
  | Option.none ↦ LockMode.none
  | some e ↦ if contains txn e.holders then e.current_mode else LockMode.none
]

unfoldable pub get_locked_key_count : Locks → ℕ
get_locked_key_count l = length l.table
