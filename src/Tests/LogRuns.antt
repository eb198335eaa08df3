-- ===== src/Tests/LogRuns.antt =====
-- Runs of the log and of the flush worker.
use concurrent_transactional.Prelude.{ℕ, ◌<◌, Bytes, true, some, List, [], ◌∷◌, take, ◌≡◌, arith}
use concurrent_transactional.Wal.Encoding.{RecordType, serialize_record}
use concurrent_transactional.Wal.{Wal, initial, log_record, fetch_and_clear_buffer, write_one}
use concurrent_transactional.Wal.Records.{WalRecord, bytes_of, Consecutive}
use concurrent_transactional.GroupCommit.{flush_once, wait_for_commit}
use concurrent_transactional.GroupCommit.System.{idle, writing, logs, fetches, Reach, opened, next}
use concurrent_transactional.GroupCommit.Durability.{synced_log, early_acknowledgement}
use concurrent_transactional.GroupCommit.Progress.{flush_once_flushes}

abbrev pub begun : Wal
begun = (log_record 7 RecordType.begin [] [] (initial true [])).0

abbrev pub committed : Wal
committed = (log_record 7 RecordType.commit [] [] begun).0

abbrev pub log : List WalRecord
log =
    record { lsn = 1; txn_id = 7; type = RecordType.begin; key = []; value = [] }
    ∷ record { lsn = 2; txn_id = 7; type = RecordType.commit; key = []; value = [] }
    ∷ []

pub logged : Reach [] log committed idle
unfolding log_record initial
logged =
    next (next opened (logs 7 RecordType.begin [] [] (omega arith)))
      (logs 7 RecordType.commit [] [] (omega arith))

flush_once_flushes_example :
    (w' : Wal) × (flush_once true committed ≡ some w') × Reach [] log w' idle × (w'.flushed_lsn ≡ 2)
flush_once_flushes_example = flush_once_flushes logged

-- The log after that flush.
abbrev pub flushed_wal : Wal
flushed_wal = (flush_once_flushes logged).0

pub flushed_reached : Reach [] log flushed_wal idle
flushed_reached = (flush_once_flushes logged).2

synced_log_example :
    (flushed_wal.synced ≡ bytes_of (take flushed_wal.flushed_lsn log)) × Consecutive 1 log
synced_log_example = synced_log flushed_reached

abbrev first_record : Bytes
first_record = serialize_record 1 7 RecordType.begin [] []

abbrev second_record : Bytes
second_record = serialize_record 2 7 RecordType.commit [] []

abbrev fetched : Wal
fetched = (fetch_and_clear_buffer committed).0

writing_first :
    Reach [] log fetched
      (writing (first_record ∷ second_record ∷ []) (first_record ∷ second_record ∷ []))
unfolding log_record initial
writing_first = next logged (fetches (λ e. cc))

early_acknowledgement_example :
    (k lsn : ℕ) × (wait_for_commit lsn (write_one first_record fetched) ≡ true)
    × ((write_one first_record fetched).written ≡ bytes_of (take k log))
    × (k < lsn)
early_acknowledgement_example = early_acknowledgement writing_first
