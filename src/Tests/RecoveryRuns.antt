-- ===== src/Tests/RecoveryRuns.antt =====
-- Runs of the recovery.
use concurrent_transactional.Prelude.{
  codes, true, false, none, some, List, [], ◌∷◌, ◌++◌, take, All, ◌≡◌, refl, arith, bytes_eq,
}
use concurrent_transactional.Store.{empty, get, put, apply_batch}
use concurrent_transactional.Store.Laws.{last_write, overlay, get-apply_batch}
use concurrent_transactional.Wal.Encoding.{RecordType, serialize_record, body_of, payload}
use concurrent_transactional.Wal.Records.{WalRecord, serialize, bytes_of}
use concurrent_transactional.Recovery.Decode.{IsEncodable}
use concurrent_transactional.Recovery.Committed.{
  ops_of, outcome, commits, committed_of, committed_operations,
}
use concurrent_transactional.Recovery.Crash.{replay_wal_committed, recover_torn, recover_synced}
use concurrent_transactional.Recovery.Atomicity.{log_without, replay_wal_uncommitted}
use concurrent_transactional.Recovery.{
  apply_operation, apply_operations, replay_wal, recover, read_record,
}
use concurrent_transactional.Tests.LogRuns.{log, flushed_wal, flushed_reached}

get-apply_batch_example :
    get (codes "a") (
      apply_batch
        (record { key = codes "a"; value = codes "1"; is_delete = false }
          ∷ record { key = codes "a"; value = []; is_delete = true }
          ∷ [])
        empty)
    ≡ none
unfolding last_write overlay bytes_eq
get-apply_batch_example =
    get-apply_batch (codes "a")
      (record { key = codes "a"; value = codes "1"; is_delete = false }
        ∷ record { key = codes "a"; value = []; is_delete = true }
        ∷ [])
      empty

-- 1 writes and commits, 2 writes and does not.
abbrev journal : List WalRecord
journal =
    record { lsn = 1; txn_id = 1; type = RecordType.begin; key = []; value = [] }
    ∷ record { lsn = 2; txn_id = 1; type = RecordType.put; key = codes "a"; value = codes "x" }
    ∷ record { lsn = 3; txn_id = 2; type = RecordType.put; key = codes "a"; value = codes "y" }
    ∷ record { lsn = 4; txn_id = 1; type = RecordType.commit; key = []; value = [] }
    ∷ []

journal-IsEncodable : All IsEncodable journal
journal-IsEncodable = (
  record { lsn = omega arith; txn_id = omega arith; texts = (refl, refl) },
  (
    record { lsn = omega arith; txn_id = omega arith; texts = (omega arith, omega arith) },
    (
      record { lsn = omega arith; txn_id = omega arith; texts = (omega arith, omega arith) },
      (record { lsn = omega arith; txn_id = omega arith; texts = (refl, refl) }, tt),
    ),
  ),
)

abbrev abort_2 : WalRecord
abort_2 = record { lsn = 5; txn_id = 2; type = RecordType.abort; key = []; value = [] }

recover_torn_example :
    recover none (some (bytes_of journal ++ take 16 (serialize abort_2))) empty
    ≡ put (codes "a") (codes "x") empty
unfolding serialize_record body_of payload committed_operations committed_of commits ops_of outcome
    apply_operations apply_operation
recover_torn_example =
    recover_torn journal 1 abort_2 (take 16 (serialize abort_2)) [] 5 empty journal-IsEncodable
      (refl, (refl, (refl, (refl, tt))))
      (record { lsn = omega arith; txn_id = omega arith; texts = (refl, refl) }) refl

replay_wal_committed_example :
    replay_wal
      (some (bytes_of journal ++ []))
      (record { store = put (codes "a") (codes "w") empty; checkpoint_lsn = 0 })
    ≡ put (codes "a") (codes "x") (put (codes "a") (codes "w") empty)
unfolding read_record committed_operations committed_of commits ops_of outcome apply_operations
    apply_operation
replay_wal_committed_example =
    replay_wal_committed journal 1 []
      (record { store = put (codes "a") (codes "w") empty; checkpoint_lsn = 0 }) journal-IsEncodable
      (refl, (refl, (refl, (refl, tt)))) refl

log-IsEncodable : All IsEncodable log
log-IsEncodable = (
  record { lsn = omega arith; txn_id = omega arith; texts = (refl, refl) },
  (record { lsn = omega arith; txn_id = omega arith; texts = (refl, refl) }, tt),
)

recover_synced_example :
    recover none (some flushed_wal.synced) empty
    ≡ apply_operations (committed_operations 0 (take flushed_wal.flushed_lsn log)) empty
recover_synced_example = recover_synced log flushed_wal empty flushed_reached log-IsEncodable

replay_wal_uncommitted_example :
    replay_wal (some (bytes_of journal ++ [])) (record { store = empty; checkpoint_lsn = 0 })
    ≡ apply_operations (committed_operations 0 (log_without 2 journal)) empty
unfolding outcome read_record
replay_wal_uncommitted_example =
    replay_wal_uncommitted journal 1 2 [] (record { store = empty; checkpoint_lsn = 0 })
      journal-IsEncodable (refl, (refl, (refl, (refl, tt)))) refl refl
