-- ===== src/Wal/Layout.antt =====
-- How the bytes of a record are laid out: its length, and the sequence number at offset 4.
use concurrent_transactional.Prelude.{ℕ, ◌^◌, ◌≤◌, ◌<◌, Bytes, length, take, drop, ◌≡◌, refl, arith}
use concurrent_transactional.Wal.Encoding.{
  RecordType, append_u64, append_u32, body_of, serialize_record,
}
use concurrent_transactional.Wal.{little_endian}

pub little_endian-append_u64 : (v : ℕ) → v < 2 ^ 64 → little_endian (append_u64 v) ≡ v
little_endian-append_u64 v h = omega arith

pub little_endian-append_u32 : (v : ℕ) → v < 2 ^ 32 → little_endian (append_u32 v) ≡ v
little_endian-append_u32 v h = omega arith

pub length-serialize_record :
    (lsn txn : ℕ) (type : RecordType) (key value : Bytes)
    → 17 ≤ length (serialize_record lsn txn type key value)
unfolding serialize_record body_of
length-serialize_record lsn txn type key value = omega arith

-- Bytes 4 to 11 of a record are its sequence number.
pub lsn_bytes :
    (lsn txn : ℕ) (type : RecordType) (key value : Bytes)
    → take 8 (drop 4 (serialize_record lsn txn type key value)) ≡ append_u64 lsn
unfolding serialize_record body_of
lsn_bytes lsn txn type key value = refl
