-- ===== src/Tests/WorldRuns.antt =====
-- Runs of several sessions.
use concurrent_transactional.Prelude.{
  Bytes, codes, bytes_eq, bytes_lt, true, false, List, [], ◌∷◌, none, some, ◌≡◌, refl, arith,
}
use concurrent_transactional.Prelude.Map.{lookup, insert, erase, bytes_order}
use concurrent_transactional.Types.{IsolationLevel}
use concurrent_transactional.Store.{get, empty}
use concurrent_transactional.Locks.{entry_in, request, initial}
use concurrent_transactional.Locks.Entry.{
  contains, add, request_entry, upgrade, is_compatible, grant_mode,
}
use concurrent_transactional.Wal.{log_begin, log_record, log_put, log_commit}
use concurrent_transactional.Transaction.{
  begin, allocate_txn_id, finish_write, finish_get, read_value, read_done, log_pending, new_manager,
  set_global_references,
}
use concurrent_transactional.World.{
  writes, World, Move, acts, starts, requests, run_moves, move, act, request_lock, resume,
  start_commit, finish, update, new_world,
}
use concurrent_transactional.World.Orderly.{is_running}
use concurrent_transactional.World.Isolation.{writes_exclude}

abbrev key : Bytes
key = codes "k"

-- What a run by evaluation opens.
ran : List Move → World
unfolding run_moves move act begin allocate_txn_id request_lock resume start_commit finish
    finish_write finish_get read_value read_done update new_world new_manager set_global_references
    request request_entry upgrade entry_in lookup insert erase bytes_eq bytes_lt contains add
    is_compatible grant_mode log_begin log_record log_put log_commit log_pending initial get empty
ran xs = run_moves xs new_world

-- Session 1 writes the key, 2 has begun.
abbrev written : List Move
written =
    acts 1 (starts IsolationLevel.repeatable_read)
    ∷ acts 1 (requests (writes key (codes "new", false)))
    ∷ acts 2 (starts IsolationLevel.repeatable_read)
    ∷ []

writer_runs : is_running ((run_moves written new_world).sessions 1) ≡ true
unfolding ran
writer_runs = refl

other_runs : is_running ((run_moves written new_world).sessions 2) ≡ true
unfolding ran
other_runs = refl

wrote :
    lookup key ((run_moves written new_world).sessions 1).manager.current_txn.pending_buffer
    ≡ some (codes "new", false)
unfolding ran
wrote = refl

writes_exclude_example :
    lookup key ((run_moves written new_world).sessions 2).manager.current_txn.locks_held ≡ none
writes_exclude_example =
    writes_exclude written 1 2 key (codes "new", false) (refl, (tt, (refl, tt))) (omega arith) refl
      writer_runs other_runs wrote
