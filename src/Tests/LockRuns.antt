-- ===== src/Tests/LockRuns.antt =====
-- Runs of the lock manager.
use concurrent_transactional.Prelude.{
  ℕ, Bytes, codes, true, List, [], ◌∷◌, ◌≡◌, ◌≢◌, refl, arith, bytes_eq, bytes_lt,
}
use concurrent_transactional.Prelude.Map.{lookup, insert, erase}
use concurrent_transactional.Types.{LockMode}
use concurrent_transactional.Locks.Entry.{
  Waiter, contains, add, remove, is_compatible, grant_mode, upgrade, request_entry, is_abandoned,
  without_txn, drop_waiters, set_granted, serve, process_waiters, release_entry,
}
use concurrent_transactional.Locks.{
  Locks, initial, entry_in, request, finish_wait, release_found, release_lock, keys_to_process,
  process_keys, erase_keys, release_all_locks, has_lock,
}
use concurrent_transactional.Locks.History.{Event, asks, wakes, releases_all, step, run}
use concurrent_transactional.Locks.Exclusion.{exclusive_alone, waiters_have_holder}
use concurrent_transactional.Locks.HandOver.{IsInOrder, release_lock-serves_first}
use concurrent_transactional.Locks.Upgrade.{has_waiter, IsUpgrading, upgrade_not_served}

abbrev key : Bytes
key = codes "k"

-- 1 and 2 read, 1 asks for more and waits behind 2, 3 waits behind 1.
abbrev crowd : List Event
crowd =
    asks 1 key LockMode.shared
    ∷ asks 2 key LockMode.shared
    ∷ asks 1 key LockMode.exclusive
    ∷ asks 3 key LockMode.shared
    ∷ []

abbrev handed : List Event
handed =
    asks 1 key LockMode.exclusive
    ∷ asks 2 key LockMode.exclusive
    ∷ asks 3 key LockMode.shared
    ∷ releases_all 1
    ∷ []

-- What a run by evaluation opens.
ran : List Event → Locks
unfolding run step initial request request_entry upgrade entry_in lookup insert erase bytes_eq
    bytes_lt has_lock contains add remove is_compatible grant_mode release_lock release_all_locks
    keys_to_process process_keys erase_keys release_found release_entry process_waiters serve
    set_granted finish_wait is_abandoned drop_waiters without_txn has_waiter
ran es = run initial es

handed_to_2 : has_lock 2 key (run initial handed) ≡ LockMode.exclusive
unfolding ran
handed_to_2 = refl

exclusive_alone_example : ◌≡◌ {A = ℕ} 2 2
exclusive_alone_example =
    exclusive_alone handed 2 2 key (refl, (refl, (refl, (tt, tt)))) handed_to_2
      (λ e. ground (arith, handed_to_2, e))

-- 3 still waits, and has 2 to wait for.
waiters_have_holder_example : (t : ℕ) × (has_lock t key (run initial handed) ≢ LockMode.none)
unfolding ran
waiters_have_holder_example =
    waiters_have_holder handed key (refl, (refl, (refl, (tt, tt)))) (λ e. cc)

abbrev before : List Event
before =
    asks 1 key LockMode.exclusive ∷ asks 2 key LockMode.exclusive ∷ asks 3 key LockMode.shared ∷ []

abbrev second : Waiter
second = record { txn_id = 2; requested_mode = LockMode.exclusive; cell = 1 }

abbrev third : Waiter
third = record { txn_id = 3; requested_mode = LockMode.shared; cell = 2 }

release_lock-serves_first_example :
    let l' = release_lock 1 key (run initial before) in
    (has_lock 2 key l' ≡ LockMode.exclusive)
    × ((l'.flags 1).granted ≡ true)
    × IsInOrder (second ∷ third ∷ []) (entry_in key l'.table) l'.flags
unfolding ran
release_lock-serves_first_example =
    release_lock-serves_first 1 key (run initial before) second (third ∷ []) (refl, (refl, tt)) refl
      refl

-- 2 lets go and 3 gives up, and 1 waits on alone.
abbrev rest : List Event
rest = releases_all 2 ∷ wakes 3 key 3 ∷ []

upgrade_not_served_example : IsUpgrading 1 (entry_in key (run (run initial crowd) rest).table)
unfolding ran
upgrade_not_served_example =
    upgrade_not_served 1 key (run initial crowd) rest (record { holds = refl; waits = refl })
      ((λ e. omega arith), ((λ e. omega arith), tt))
