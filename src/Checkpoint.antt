-- ===== src/Checkpoint.antt =====
-- src/core/checkpoint_manager.h and src/core/checkpoint_manager.cpp: snapshots of the store, and the
-- cut of the log behind them. Files are `none` where they cannot be opened; `rename` succeeds.
pub mod Snapshot
pub mod Truncation
pub mod Numbering
use concurrent_transactional.Prelude.{
  ℕ, zero, suc, ◌+◌, ◌-◌, ◌/◌, ◌%◌, ◌^◌, ◌==◌, ltb, leb, Bytes, Bool, true, false, ◌||◌, not,
  Option, none, some, List, [], ◌∷◌, ◌++◌, length, take, drop, ◌>>=◌, if◌then◌else◌,
}
use concurrent_transactional.Store.{Store, get_all_entries}
use concurrent_transactional.Wal.Encoding.{append_bytes, append_u64, append_u32}
use concurrent_transactional.Wal.{Wal, little_endian}
use concurrent_transactional.Recovery.Reading.{read, magic_number}

-- A text with its length, both cut to 16 bits.
unfoldable pub write_string : Bytes → Bytes
write_string s = let len = length s % 2 ^ 16 in append_bytes 2 0 len ++ take len s

unfoldable pub write_entries : List (Bytes × Bytes) → Bytes
write_entries [] = []
write_entries ((key, value) ∷ es) = write_string key ++ (write_string value ++ write_entries es)

-- What `writeSnapshotFile` writes, for the entries in the order in which it meets them.
unfoldable pub snapshot_text : ℕ → List (Bytes × Bytes) → Bytes
snapshot_text checkpoint_lsn entries =
    append_u32 magic_number
    ++ (append_u32 1
        ++ (append_u64 checkpoint_lsn ++ (append_u64 (length entries) ++ write_entries entries)))

-- `none` where the file cannot be opened for writing.
unfoldable pub write_snapshot_file : Bool → ℕ → Store → Option Bytes
write_snapshot_file opened checkpoint_lsn store =
    if opened then some (snapshot_text checkpoint_lsn (get_all_entries store)) else none

-- The value of a record as `truncateWAL` reads it: a length only for PUT and DELETE.
unfoldable pub skip_value : ℕ → Bytes → Option (Bytes × Bytes)
skip_value type file =
    if type == 2 || type == 3
    then (do (len, file) ← read 2 file; read (little_endian len) file)
    else some ([], file)

-- One record as `truncateWAL` reads it: its number, and what is behind it. A key is read for every
-- type.
unfoldable pub skip_record : Bytes → Option (ℕ × Bytes)
skip_record file = do
  (crc, file) ← read 4 file
  (lsn, file) ← read 8 file
  (txn_id, file) ← read 4 file
  (type, file) ← read 1 file
  (key_len, file) ← read 2 file
  (key, file) ← read (little_endian key_len) file
  (value, file) ← skip_value (little_endian type) file
  some (little_endian lsn, file)

-- The loop. A record is copied by reading the file again from its start up to its end.
unfoldable pub keep_records : ℕ → ℕ → Bytes → Bytes
keep_records zero checkpoint_lsn file = []
keep_records (suc fuel) checkpoint_lsn file = elim (skip_record file) [
  | none ↦ []
  | some (lsn, rest) ↦
      let raw = take (length file - length rest) file in
      let kept = keep_records fuel checkpoint_lsn rest in
      if ltb checkpoint_lsn lsn then raw ++ kept else kept
]

-- The new content of the log file. Each round reads 19 bytes or more.
unfoldable pub truncate_wal : ℕ → Option Bytes → Option Bytes
truncate_wal checkpoint_lsn file = elim file [
  | none ↦ none
  | some text ↦ some (keep_records (length text) checkpoint_lsn text)
]

-- The log manager after the cut.
unfoldable pub cut_log : Bool → ℕ → Wal → Wal
cut_log found lsn w = elim (truncate_wal lsn (if found then some w.written else none)) [
  | none ↦ w
  | some text ↦ record w { written = text; synced = text }
]
