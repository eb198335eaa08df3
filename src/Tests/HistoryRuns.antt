-- ===== src/Tests/HistoryRuns.antt =====
-- A run of two sessions with its journal.
use concurrent_transactional.Prelude.{Bytes, codes, bytes_eq, false, List, [], ◌∷◌, ◌≡◌, refl}
use concurrent_transactional.Prelude.Map.{lookup, insert, bytes_order}
use concurrent_transactional.Types.{IsolationLevel}
use concurrent_transactional.Store.{get, empty, apply_op}
use concurrent_transactional.Transaction.Replies.{Status}
use concurrent_transactional.World.{
  reads, writes, Move, acts, starts, requests, resumes, commits, passes, applies, new_world, finish,
  request_lock, resume, start_commit, pass_flush, apply_next, act, update, move,
}
use concurrent_transactional.World.Serial.{
  blank, run_noted, reply_to, look, end_of, seen_next, note,
}
use concurrent_transactional.Prelude.Text.{bytes_eq}
use concurrent_transactional.Locks.{
  initial, entry_in, request, finish_wait, release_found, keys_to_process, process_keys,
  release_all_locks,
}
use concurrent_transactional.Locks.Entry.{
  contains, add, remove, is_compatible, grant_mode, request_entry, is_abandoned, set_granted, serve,
  process_waiters, release_entry,
}
use concurrent_transactional.Wal.{
  log_record, log_begin, log_put, log_commit, fetch_and_clear_buffer, write_one, write_all,
  flush_stream, write_to_disk, fsync, get_flushed_lsn,
}
use concurrent_transactional.GroupCommit.{
  parse_loop, parse_lsn, max_lsn, flush_once, wait_for_commit,
}
use concurrent_transactional.Transaction.{
  new_manager, set_global_references, allocate_txn_id, begin, apply_pending, log_pending,
  release_all, end_commit, finish_write, read_done, read_value, finish_get,
}
use concurrent_transactional.Wal.Encoding.{append_str, payload, body_of, serialize_record}
use concurrent_transactional.Wal

abbrev pub key : Bytes
key = codes "k"

-- Session 1 writes the key and commits, while 2 wants to read it and waits until the commit ends.
abbrev pub two_commits : List Move
two_commits =
    acts 1 (starts IsolationLevel.repeatable_read)
    ∷ acts 1 (requests (writes key (codes "new", false)))
    ∷ acts 2 (starts IsolationLevel.repeatable_read)
    ∷ acts 2 (requests (reads key))
    ∷ acts 1 commits
    ∷ Move.flushes
    ∷ acts 1 passes
    ∷ acts 1 applies
    ∷ acts 1 applies
    ∷ acts 2 resumes
    ∷ acts 2 commits
    ∷ Move.flushes
    ∷ acts 2 passes
    ∷ acts 2 applies
    ∷ []

-- The reader comes second and has read what the first has written.
reader_second :
    (run_noted two_commits new_world blank).history
    ≡ record { observed = (key, (Status.success, codes "new")) ∷ []; written = [] }
      ∷ record { observed = []; written = (key, (codes "new", false)) ∷ [] }
      ∷ []
unfolding bytes_eq lookup insert empty get apply_op initial entry_in request finish_wait
    release_found keys_to_process process_keys release_all_locks contains add remove is_compatible
    grant_mode request_entry is_abandoned set_granted serve process_waiters release_entry
    Wal.initial log_record log_begin log_put log_commit fetch_and_clear_buffer write_one write_all
    flush_stream write_to_disk fsync get_flushed_lsn parse_loop parse_lsn max_lsn flush_once
    wait_for_commit new_manager set_global_references allocate_txn_id begin apply_pending
    log_pending release_all end_commit finish_write read_done read_value finish_get finish
    request_lock resume start_commit pass_flush apply_next act update move new_world blank reply_to
    look end_of seen_next note run_noted append_str payload body_of serialize_record
reader_second = refl
