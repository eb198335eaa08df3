-- ===== src/Wal/Encoding.antt =====
-- The byte layout of the log: `append_u64`, `append_u32`, `append_str`, `serializeRecord` and
-- `crc32` of src/core/wal_manager.cpp.
use concurrent_transactional.Prelude.{
  ℕ, zero, suc, ◌+◌, ◌-◌, ◌*◌, ◌/◌, ◌%◌, ◌^◌, ◌==◌, bit_xor, Bytes, [], ◌∷◌, ◌++◌, length,
  if◌then◌else◌,
}

pub data RecordType : Type 0 where
  begin put delete commit abort : RecordType

-- `static_cast<char>(type)`
abbrev pub type_code : RecordType → ℕ
type_code RecordType.begin = 1
type_code RecordType.put = 2
type_code RecordType.delete = 3
type_code RecordType.commit = 4
type_code RecordType.abort = 5

-- The loop of `append_u64` and `append_u32`, from `i`, over the bytes that are left.
abbrev pub append_bytes : ℕ → ℕ → ℕ → Bytes
append_bytes zero i v = []
append_bytes (suc n) i v = (v / 2 ^ (8 * i) % 256) ∷ append_bytes n (i + 1) v

abbrev pub append_u64 : ℕ → Bytes
append_u64 v = append_bytes 8 0 v

abbrev pub append_u32 : ℕ → Bytes
append_u32 v = append_bytes 4 0 v

-- The length is cut to 16 bits; the text is not.
unfoldable pub append_str : Bytes → Bytes
append_str s = let len = length s % 2 ^ 16 in (len % 256) ∷ (len / 256 % 256) ∷ s

-- The inner loop of `crc32`: eight shifts.
unfoldable pub crc_shifts : ℕ → ℕ → ℕ
crc_shifts zero crc = crc
crc_shifts (suc n) crc =
    crc_shifts n (if crc % 2 == 1 then bit_xor (crc / 2) 0xEDB88320 else crc / 2)

unfoldable pub crc_loop : ℕ → Bytes → ℕ
crc_loop crc [] = crc
crc_loop crc (c ∷ rest) = crc_loop (crc_shifts 8 (bit_xor crc c)) rest

-- `~crc` of a 32-bit word.
unfoldable pub crc32 : Bytes → ℕ
unfolding crc_loop crc_shifts
crc32 text = 0xFFFFFFFF - crc_loop 0xFFFFFFFF text

unfoldable pub payload : RecordType → Bytes → Bytes → Bytes
payload RecordType.put key value = append_str key ++ append_str value
payload RecordType.delete key value = append_str key
payload RecordType.begin key value = []
payload RecordType.commit key value = []
payload RecordType.abort key value = []

-- Header without the checksum, then the payload.
unfoldable pub body_of : ℕ → ℕ → RecordType → Bytes → Bytes → Bytes
body_of lsn txn type key value =
    append_u64 lsn ++ (append_u32 txn ++ (type_code type ∷ payload type key value))

unfoldable pub serialize_record : ℕ → ℕ → RecordType → Bytes → Bytes → Bytes
serialize_record lsn txn type key value =
    let body = body_of lsn txn type key value in append_u32 (crc32 body) ++ body
