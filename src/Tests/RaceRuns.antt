-- ===== src/Tests/RaceRuns.antt =====
-- Runs of events, and two threads at once in the table.
use concurrent_transactional.Prelude.{
  Option, none, some, Bool, true, ℕ, codes, bytes_eq, false, List, [], ◌∷◌, All, ◌≡◌, ◌⊎◌, refl,
  arith,
}
use concurrent_transactional.Prelude.Map.{lookup, insert, bytes_order}
use concurrent_transactional.Types.{LockMode, IsolationLevel}
use concurrent_transactional.Store.{get, empty, apply_op}
use concurrent_transactional.World.{
  reads, writes, Move, acts, starts, requests, resumes, commits, passes, applies, new_world, finish,
  request_lock, resume, start_commit, pass_flush, apply_next, act, update, move,
}
use concurrent_transactional.World.Serial.{
  blank, IsSerial, replay, run_noted, reply_to, look, end_of, seen_next, note,
}
use concurrent_transactional.World.Serial.Ledgers.{IsWriting}
use concurrent_transactional.Prelude.Text.{bytes_eq}
use concurrent_transactional.Locks.{
  initial, entry_in, request, finish_wait, release_found, keys_to_process, process_keys,
  release_all_locks,
}
use concurrent_transactional.Locks.Entry.{
  contains, add, remove, is_compatible, grant_mode, request_entry, is_abandoned, set_granted, serve,
  process_waiters, release_entry,
}
use concurrent_transactional.Wal.{
  log_record, log_begin, log_put, log_commit, fetch_and_clear_buffer, write_one, write_all,
  flush_stream, write_to_disk, fsync, get_flushed_lsn,
}
use concurrent_transactional.GroupCommit.{
  parse_loop, parse_lsn, max_lsn, flush_once, wait_for_commit,
}
use concurrent_transactional.Transaction.{
  new_manager, set_global_references, allocate_txn_id, begin, apply_pending, log_pending,
  release_all, end_commit, finish_write, read_done, read_value, finish_get,
}
use concurrent_transactional.Wal.Encoding.{append_str, payload, body_of, serialize_record}
use concurrent_transactional.Wal
use concurrent_transactional.World.Orderly.{is_running}
use concurrent_transactional.World.Serial.Ledgers.{IsWriting}
use concurrent_transactional.World.Races.{
  Instant, enters, leaves, flushing, Course, access_of, leave, happen, run_events, new_course,
}
use concurrent_transactional.World.Races.Freedom.{
  BeginsRepeatable, serializable, table_replayed, reads_repeat,
}
use concurrent_transactional.Tests.HistoryRuns.{key, two_commits}

-- Each step is left before the next is entered.
abbrev in_turn : List Move → List Instant
in_turn [] = []
in_turn (acts i a ∷ xs) = enters i a ∷ leaves i ∷ in_turn xs
in_turn (Move.flushes ∷ xs) = flushing ∷ in_turn xs

abbrev course_of : Option Course → Course
course_of none = new_course
course_of (some c) = c

abbrev has_result : Option Course → Bool
has_result none = false
has_result (some c) = true

of_result : (o : Option Course) → has_result o ≡ true → o ≡ some (course_of o)
of_result none h = cc h
of_result (some c) h = refl

abbrev whole_run : List Instant
whole_run = in_turn two_commits

all_repeatable : All BeginsRepeatable whole_run
all_repeatable = (
  refl,
  (
    tt,
    (
      tt,
      (
        tt,
        (
          refl,
          (
            tt,
            (
              tt,
              (
                tt,
                (
                  tt,
                  (
                    tt,
                    (
                      tt,
                      (
                        tt,
                        (
                          tt,
                          (
                            tt,
                            (
                              tt,
                              (tt, (tt, (tt, (tt, (tt, (tt, (tt, (tt, (tt, (tt, (tt, tt))))))))))),
                            ),
                          ),
                        ),
                      ),
                    ),
                  ),
                ),
              ),
            ),
          ),
        ),
      ),
    ),
  ),
)

-- What a run by evaluation opens.
ran : List Instant → Option Course
unfolding bytes_eq lookup insert empty get apply_op initial entry_in request finish_wait
    release_found keys_to_process process_keys release_all_locks contains add remove is_compatible
    grant_mode request_entry is_abandoned set_granted serve process_waiters release_entry
    Wal.initial log_record log_begin log_put log_commit fetch_and_clear_buffer write_one write_all
    flush_stream write_to_disk fsync get_flushed_lsn parse_loop parse_lsn max_lsn flush_once
    wait_for_commit new_manager set_global_references allocate_txn_id begin apply_pending
    log_pending release_all end_commit finish_write read_done read_value finish_get finish
    request_lock resume start_commit pass_flush apply_next act update move new_world blank reply_to
    look end_of seen_next note run_noted append_str payload body_of serialize_record run_events
    happen leave access_of new_course
ran es = run_events es new_course

runs_on : has_result (run_events whole_run new_course) ≡ true
unfolding ran
runs_on = refl

runs : run_events whole_run new_course ≡ some (course_of (run_events whole_run new_course))
runs = of_result (run_events whole_run new_course) runs_on

serializable_example : IsSerial (course_of (run_events whole_run new_course)).journal.history
serializable_example =
    serializable whole_run (course_of (run_events whole_run new_course)) all_repeatable
      (omega arith) runs

table_replayed_example :
    (get key (course_of (run_events whole_run new_course)).world.shared.store
      ≡ get key (replay (course_of (run_events whole_run new_course)).journal.history))
    ⊎ ((i : ℕ) × IsWriting key ((course_of (run_events whole_run new_course)).world.sessions i))
table_replayed_example =
    table_replayed whole_run (course_of (run_events whole_run new_course)) key all_repeatable
      (omega arith) runs

-- Session 1 reads the key, 2 wants to write it and waits.
abbrev early : List Instant
early = in_turn (
    acts 1 (starts IsolationLevel.repeatable_read)
    ∷ acts 1 (requests (reads key))
    ∷ acts 2 (starts IsolationLevel.repeatable_read)
    ∷ acts 2 (requests (writes key (codes "new", false)))
    ∷ [])

-- The wait of 2 ends in vain.
abbrev late : List Instant
late = flushing ∷ enters 2 resumes ∷ leaves 2 ∷ []

abbrev before : Course
before = course_of (run_events early new_course)

abbrev after : Course
after = course_of (run_events late before)

early_on : has_result (run_events early new_course) ≡ true
unfolding ran
early_on = refl

early_runs : run_events early new_course ≡ some before
early_runs = of_result (run_events early new_course) early_on

late_on : has_result (run_events late before) ≡ true
unfolding ran
late_on = refl

late_runs : run_events late before ≡ some after
late_runs = of_result (run_events late before) late_on

outside : before.inside 1 ≡ none
unfolding ran
outside = refl

reader_runs : is_running (before.world.sessions 1) ≡ true
unfolding ran
reader_runs = refl

reader_locks :
    lookup key (before.world.sessions 1).manager.current_txn.locks_held ≡ some LockMode.shared
unfolding ran
reader_locks = refl

reads_repeat_example : get key after.world.shared.store ≡ get key before.world.shared.store
reads_repeat_example =
    reads_repeat early late before after 1 key LockMode.shared
      (refl, (tt, (tt, (tt, (refl, (tt, (tt, (tt, tt)))))))) (tt, (tt, (tt, tt)))
      (tt, (refl, (tt, tt))) (omega arith) early_runs late_runs outside reader_runs reader_locks

-- Two sessions write two keys and commit, and are in the table at one time.
abbrev meeting : List Instant
meeting =
    enters 1 (starts IsolationLevel.repeatable_read)
    ∷ leaves 1
    ∷ enters 1 (requests (writes key (codes "new", false)))
    ∷ leaves 1
    ∷ enters 2 (starts IsolationLevel.repeatable_read)
    ∷ leaves 2
    ∷ enters 2 (requests (writes (codes "j") (codes "old", false)))
    ∷ leaves 2
    ∷ enters 1 commits
    ∷ leaves 1
    ∷ enters 2 commits
    ∷ leaves 2
    ∷ flushing
    ∷ enters 1 passes
    ∷ leaves 1
    ∷ enters 2 passes
    ∷ leaves 2
    ∷ enters 1 applies
    ∷ enters 2 applies
    ∷ leaves 1
    ∷ leaves 2
    ∷ []

data_race : run_events meeting new_course ≡ none
unfolding ran
data_race = refl
