-- ===== src/GroupCommit.antt =====
-- src/core/group_commit.h and src/core/group_commit.cpp: batches of log records made durable.
-- `start`, `stop` and the sleep of `run` only decide when `flush_once` is called.
pub mod Numbers
pub mod System
pub mod Invariant
pub mod Writing
pub mod Reachable
pub mod Durability
pub mod Progress
use concurrent_transactional.Prelude.{
  ℕ, zero, suc, ◌+◌, ◌*◌, ◌^◌, ltb, leb, bit_or, Bytes, Bool, Option, none, some, List, [], ◌∷◌,
  length, drop, is_empty, if◌then◌else◌, ◌>>=◌,
}
use concurrent_transactional.Wal.{
  Wal, fetch_and_clear_buffer, write_to_disk, fsync, update_flushed_lsn, get_flushed_lsn,
}

-- The loop of `parseLSN` from `i`: `lsn |= uint8_t(rec[4 + i]) << (8 * i)`.
unfoldable pub parse_loop : ℕ → ℕ → ℕ → Bytes → ℕ
parse_loop zero i lsn rec = lsn
parse_loop (suc n) i lsn [] = lsn
parse_loop (suc n) i lsn (b ∷ rec) = parse_loop n (i + 1) (bit_or lsn (b * 2 ^ (8 * i))) rec

-- `none` is the exception "WAL record too short for LSN".
unfoldable pub parse_lsn : Bytes → Option ℕ
parse_lsn rec = if ltb (length rec) 12 then none else some (parse_loop 8 0 0 (drop 4 rec))

-- `std::max`
abbrev max_of : ℕ → ℕ → ℕ
max_of a b = if ltb a b then b else a

unfoldable pub max_lsn : ℕ → List Bytes → Option ℕ
max_lsn m [] = some m
max_lsn m (rec ∷ rest) = do lsn ← parse_lsn rec; max_lsn (max_of m lsn) rest

-- `none` is an exception that leaves the worker.
unfoldable pub flush_once : Bool → Wal → Option Wal
flush_once opened w =
    let (w', records) = fetch_and_clear_buffer w in
    if is_empty records then some w' else do
      let synced = fsync opened (write_to_disk records w')
      lsn ← max_lsn 0 records
      some (update_flushed_lsn lsn synced)

-- The predicate on which `waitForCommit` waits.
unfoldable pub wait_for_commit : ℕ → Wal → Bool
wait_for_commit commit_lsn w = leb commit_lsn (get_flushed_lsn w)
