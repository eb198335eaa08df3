-- ===== src/GroupCommit/Numbers.antt =====
-- `parseLSN` gives back the number of a record.
use concurrent_transactional.Prelude.{
  ℕ, ◌+◌, ◌*◌, ◌/◌, ◌%◌, ◌^◌, ◌<◌, bit_or, Bytes, some, ◌++◌, drop, ◌≡◌, arith, ◌∙◌,
}
use concurrent_transactional.Prelude.Bits.{bit_or_disjoint}
use concurrent_transactional.Wal.Encoding.{RecordType, append_u64, body_of, serialize_record}
use concurrent_transactional.Wal.Layout.{length-serialize_record}
use concurrent_transactional.GroupCommit.{parse_loop, parse_lsn}

or_byte : (k a b c : ℕ) → a < 2 ^ k → a + b * 2 ^ k ≡ c → bit_or a (b * 2 ^ k) ≡ c
or_byte k a b c h e = bit_or_disjoint k a b h ∙ e

parse_loop-append_u64 :
    (v : ℕ) (rest : Bytes) → v < 2 ^ 64 → parse_loop 8 0 0 (append_u64 v ++ rest) ≡ v
unfolding parse_loop
parse_loop-append_u64 v rest h = rw (
  or_byte 0 0 (v / 2 ^ 0 % 256) (v % 2 ^ 8) (omega arith) (omega arith),
  or_byte 8 (v % 2 ^ 8) (v / 2 ^ 8 % 256) (v % 2 ^ 16) (omega arith) (omega arith),
  or_byte 16 (v % 2 ^ 16) (v / 2 ^ 16 % 256) (v % 2 ^ 24) (omega arith) (omega arith),
  or_byte 24 (v % 2 ^ 24) (v / 2 ^ 24 % 256) (v % 2 ^ 32) (omega arith) (omega arith),
  or_byte 32 (v % 2 ^ 32) (v / 2 ^ 32 % 256) (v % 2 ^ 40) (omega arith) (omega arith),
  or_byte 40 (v % 2 ^ 40) (v / 2 ^ 40 % 256) (v % 2 ^ 48) (omega arith) (omega arith),
  or_byte 48 (v % 2 ^ 48) (v / 2 ^ 48 % 256) (v % 2 ^ 56) (omega arith) (omega arith),
  or_byte 56 (v % 2 ^ 56) (v / 2 ^ 56 % 256) v (omega arith) (omega arith),
)

-- The record that was serialized with a number of 64 bits has that number.
pub parse_lsn-serialize_record :
    (lsn txn : ℕ) (type : RecordType) (key value : Bytes)
    → lsn < 2 ^ 64
    → parse_lsn (serialize_record lsn txn type key value) ≡ some lsn
unfolding parse_lsn
parse_lsn-serialize_record lsn txn type key value h =
    ground (arith, length-serialize_record lsn txn type key value, number)
  where
    number : parse_loop 8 0 0 (drop 4 (serialize_record lsn txn type key value)) ≡ lsn
    number = unfold serialize_record body_of in parse_loop-append_u64 lsn _ h
