-- ===== src/Checkpoint/Truncation.antt =====
-- The cut of the log takes every record to have a key, which BEGIN, COMMIT and ABORT have not.
use concurrent_transactional.Prelude.{ℕ, zero, suc, Bytes, none, some, [], length, ◌≡◌, refl, ap}
use concurrent_transactional.Wal.Encoding.{RecordType, payload, body_of, serialize_record}
use concurrent_transactional.Recovery.Reading.{read}
use concurrent_transactional.Checkpoint.{skip_record, keep_records, truncate_wal}

-- The types without a payload.
pub data IsPlain : RecordType → Type 0 where
  begin : IsPlain RecordType.begin
  commit : IsPlain RecordType.commit
  abort : IsPlain RecordType.abort

skip_record_plain :
    (lsn txn : ℕ) (type : RecordType) (key value : Bytes)
    → IsPlain type
    → skip_record (serialize_record lsn txn type key value) ≡ none
unfolding skip_record read serialize_record body_of payload
skip_record_plain lsn txn _ key value begin = refl
skip_record_plain lsn txn _ key value commit = refl
skip_record_plain lsn txn _ key value abort = refl

-- The cut of a log that consists of one record without a payload, BEGIN, COMMIT or ABORT, empties the
-- log whatever the numbers are: a record that the checkpoint does not cover is lost too.
pub truncate_wal_plain :
    (checkpoint_lsn lsn txn : ℕ) (type : RecordType) (key value : Bytes)
    → IsPlain type
    → truncate_wal checkpoint_lsn (some (serialize_record lsn txn type key value)) ≡ some []
unfolding truncate_wal
truncate_wal_plain c lsn txn type key value p = ap some (
    stops (length (serialize_record lsn txn type key value))
      (skip_record_plain lsn txn type key value p))
  where
    stops :
        (fuel : ℕ)
        → skip_record (serialize_record lsn txn type key value) ≡ none
        → keep_records fuel c (serialize_record lsn txn type key value) ≡ []
    stops zero h = unfold keep_records in refl
    stops (suc fuel) h = unfold keep_records in rw (h, keep_records)
