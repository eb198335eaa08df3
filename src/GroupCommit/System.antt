-- ===== src/GroupCommit/System.antt =====
-- The flush worker beside the threads that log, one atomic part after another. A part of
-- `flushOnce` is what it does between two points at which another thread can see a difference:
-- the fetch under `mtx_`, the write of one record with its `updateFlushedLSN`, the flush of the
-- stream, the `fsync`, the last `updateFlushedLSN`. The file is open and `::open` succeeds.
use concurrent_transactional.Prelude.{
  ℕ, ◌+◌, ◌<◌, ◌^◌, Bytes, true, List, [], ◌∷◌, ◌++◌, ◌≡◌, ◌≢◌, some,
}
use concurrent_transactional.Wal.Encoding.{RecordType}
use concurrent_transactional.Wal.Records.{WalRecord}
use concurrent_transactional.Wal.{
  Wal, initial, log_record, fetch_and_clear_buffer, write_one, flush_stream, fsync,
  update_flushed_lsn,
}
use concurrent_transactional.GroupCommit.{max_lsn}

-- The record that a call of the log adds.
abbrev pub record_of : Wal → ℕ → RecordType → Bytes → Bytes → WalRecord
record_of w txn type key value = record {
  lsn = w.next_lsn;
  txn_id = txn;
  type = type;
  key = key;
  value = value;
}

pub data Phase : Type 0 where
  idle : Phase
  writing : List Bytes → List Bytes → Phase
  flushed synced : List Bytes → Phase

-- A step, with the list of all records logged so far before and after it.
pub data Step : List WalRecord → Wal → Phase → List WalRecord → Wal → Phase → Type 0 where
  logs :
      {log : List WalRecord} {w : Wal} {p : Phase} (txn : ℕ) (type : RecordType) (key value : Bytes)
      → w.next_lsn + 1 < 2 ^ 64
      → Step log w p
          (log ++ record_of w txn type key value ∷ [])
          (log_record txn type key value w).0
          p
  fetches :
      {log : List WalRecord} {w : Wal}
      → w.buffer ≢ []
      → Step log w idle log (fetch_and_clear_buffer w).0 (writing w.buffer w.buffer)
  writes :
      {log : List WalRecord} {w : Wal} {rec : Bytes} {rest batch : List Bytes}
      → Step log w (writing (rec ∷ rest) batch) log (write_one rec w) (writing rest batch)
  flushes :
      {log : List WalRecord} {w : Wal} {batch : List Bytes}
      → Step log w (writing [] batch) log (flush_stream w) (flushed batch)
  syncs :
      {log : List WalRecord} {w : Wal} {batch : List Bytes}
      → Step log w (flushed batch) log (fsync true w) (synced batch)
  publishes :
      {log : List WalRecord} {w : Wal} {batch : List Bytes} (lsn : ℕ)
      → max_lsn 0 batch ≡ some lsn
      → Step log w (synced batch) log (update_flushed_lsn lsn w) idle

-- Reachable from the opening of a log file that holds `found`.
pub data Reach (found : Bytes) : List WalRecord → Wal → Phase → Type 0 where
  opened : Reach found [] (initial true found) idle
  next :
      {log more : List WalRecord} {w v : Wal} {p q : Phase}
      → Reach found log w p
      → Step log w p more v q
      → Reach found more v q
