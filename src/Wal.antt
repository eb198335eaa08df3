-- ===== src/Wal.antt =====
-- src/core/wal_manager.h and src/core/wal_manager.cpp: the write-ahead log.
-- The log file is three texts: `stream`, what `log_file_` has buffered and not passed on; `written`,
-- what the operating system has; `synced`, what is on the medium. The stream is taken to pass its
-- bytes on at `flush()` only, and writes to succeed; the source checks no result of them.
pub mod Encoding
pub mod Layout
pub mod Records
use concurrent_transactional.Prelude.{
  ℕ, zero, suc, ◌+◌, ◌%◌, ◌*◌, ◌^◌, ◌==◌, ltb, leb, Bytes, Bool, true, false, List, [], ◌∷◌, ◌++◌,
  length, drop, take, if◌then◌else◌,
}
use Encoding.{RecordType, serialize_record}

pub record Wal : Type 0 where
  pub is_open : Bool
  pub next_lsn : ℕ
  pub flushed_lsn : ℕ
  pub buffer : List Bytes
  pub stream : Bytes
  pub written : Bytes
  pub synced : Bytes

-- The constructor; `opened` is what `log_file_.open` came to, and `found` the file's old content.
unfoldable pub initial : Bool → Bytes → Wal
initial opened found = record {
  is_open = opened;
  next_lsn = 1;
  flushed_lsn = 0;
  buffer = [];
  stream = [];
  written = found;
  synced = found;
}

-- What `logBegin`, `logPut`, `logDelete`, `logCommit` and `logAbort` have in common.
unfoldable pub log_record : ℕ → RecordType → Bytes → Bytes → Wal → Wal × ℕ
log_record txn type key value w = (
  record w {
    next_lsn = (w.next_lsn + 1) % 2 ^ 64;
    buffer = w.buffer ++ serialize_record w.next_lsn txn type key value ∷ [];
  },
  w.next_lsn,
)

unfoldable pub log_begin : ℕ → Wal → Wal × ℕ
log_begin txn w = log_record txn RecordType.begin [] [] w

unfoldable pub log_put : ℕ → Bytes → Bytes → Wal → Wal × ℕ
log_put txn key value w = log_record txn RecordType.put key value w

unfoldable pub log_delete : ℕ → Bytes → Wal → Wal × ℕ
log_delete txn key w = log_record txn RecordType.delete key [] w

unfoldable pub log_commit : ℕ → Wal → Wal × ℕ
log_commit txn w = log_record txn RecordType.commit [] [] w

unfoldable pub log_abort : ℕ → Wal → Wal × ℕ
log_abort txn w = log_record txn RecordType.abort [] [] w

unfoldable pub fetch_and_clear_buffer : Wal → Wal × List Bytes
fetch_and_clear_buffer w = (record w { buffer = [] }, w.buffer)

unfoldable pub update_flushed_lsn : ℕ → Wal → Wal
update_flushed_lsn lsn w = if ltb w.flushed_lsn lsn then record w { flushed_lsn = lsn } else w

-- A `memcpy` of an integer, on a little-endian host.
abbrev pub little_endian : Bytes → ℕ
little_endian [] = 0
little_endian (b ∷ bs) = b + 256 * little_endian bs

-- One round of the loop of `writeToDisk`.
unfoldable pub write_one : Bytes → Wal → Wal
unfolding update_flushed_lsn
write_one rec w =
    let out = record w { stream = w.stream ++ rec } in
    if leb 12 (length rec)
    then update_flushed_lsn (little_endian (take 8 (drop 4 rec))) out
    else out

unfoldable pub write_all : List Bytes → Wal → Wal
write_all [] w = w
write_all (rec ∷ rest) w = write_all rest (write_one rec w)

-- `log_file_.flush()`
unfoldable pub flush_stream : Wal → Wal
flush_stream w = record w { stream = []; written = w.written ++ w.stream }

unfoldable pub write_to_disk : List Bytes → Wal → Wal
write_to_disk records w = if w.is_open then flush_stream (write_all records w) else w

-- `opened` is whether `::open` gave a descriptor.
unfoldable pub fsync : Bool → Wal → Wal
fsync opened w = if opened then record w { synced = w.written } else w

unfoldable pub get_flushed_lsn : Wal → ℕ
get_flushed_lsn w = w.flushed_lsn
