-- ===== src/Recovery/Decode.antt =====
-- Reading back what the log wrote: a whole record, and a record that a crash has cut.
use concurrent_transactional.Prelude.{
  ℕ, zero, suc, ◌+◌, ◌*◌, ◌/◌, ◌%◌, ◌^◌, ◌<◌, ◌==◌, Bytes, none, some, [], ◌∷◌, ◌++◌, length,
  if◌then◌else◌, ◌≡◌, refl, arith, append_assoc, ap,
}
use concurrent_transactional.Wal.Encoding.{
  RecordType, append_u64, append_u32, append_str, type_code, payload, body_of, serialize_record,
  crc32,
}
use concurrent_transactional.Wal.Layout.{little_endian-append_u64, little_endian-append_u32}
use concurrent_transactional.Wal.Records.{WalRecord, serialize}
use concurrent_transactional.Recovery.Reading.{read, read_string}
use concurrent_transactional.Recovery.{
  RawRecord, read_payload, read_record, rebuild_body, text_field,
}

-- What fits the layout: numbers of their width, texts below 64 KiB, and a payload as the type has it.
abbrev pub HasPayload : RecordType → Bytes → Bytes → Type 0
HasPayload RecordType.put key value = (length key < 2 ^ 16) × (length value < 2 ^ 16)
HasPayload RecordType.delete key value = (length key < 2 ^ 16) × (value ≡ [])
HasPayload RecordType.begin key value = (key ≡ []) × (value ≡ [])
HasPayload RecordType.commit key value = (key ≡ []) × (value ≡ [])
HasPayload RecordType.abort key value = (key ≡ []) × (value ≡ [])

pub record IsEncodable (r : WalRecord) : Type 0 where
  pub lsn : r.lsn < 2 ^ 64
  pub txn_id : r.txn_id < 2 ^ 32
  pub texts : HasPayload r.type r.key r.value

-- The record as the recovery reads it.
abbrev pub raw_of : WalRecord → RawRecord
raw_of r = record {
  crc = crc32 (body_of r.lsn r.txn_id r.type r.key r.value);
  lsn = r.lsn;
  txn_id = r.txn_id;
  type = type_code r.type;
  key = r.key;
  value = r.value;
}

crc32-lt : (text : Bytes) → crc32 text < 2 ^ 32
unfolding crc32
crc32-lt text = omega arith

pub read-append : (s rest : Bytes) → read (length s) (s ++ rest) ≡ some (s, rest)
unfolding read
read-append [] rest = refl
read-append (b ∷ s) rest = rw (read-append s rest)

read_string-append_str :
    (s rest : Bytes) → length s < 2 ^ 16 → read_string (append_str s ++ rest) ≡ some (s, rest)
unfolding read_string append_str
read_string-append_str s rest h = rw len (read-append s rest)
  where
    len : length s % 2 ^ 16 % 256 + 256 * (length s % 2 ^ 16 / 256 % 256 + 256 * 0) ≡ length s
    len = omega arith

read_payload-payload :
    (type : RecordType) (key value rest : Bytes)
    → HasPayload type key value
    → read_payload (type_code type) (payload type key value ++ rest) ≡ some ((key, value), rest)
unfolding read_payload payload
read_payload-payload RecordType.put key value rest h = rw (
  append_assoc (append_str key) (append_str value) rest,
  read_string-append_str key (append_str value ++ rest) h.0,
  read_string-append_str value rest h.1,
)
read_payload-payload RecordType.delete key value rest h =
    rw (read_string-append_str key rest h.0, h.1)
read_payload-payload RecordType.begin key value rest h = rw (h.0, h.1)
read_payload-payload RecordType.commit key value rest h = rw (h.0, h.1)
read_payload-payload RecordType.abort key value rest h = rw (h.0, h.1)

type_byte : (type : RecordType) → type_code type + 256 * 0 ≡ type_code type
type_byte type = omega arith

-- Reading a record that was serialized gives the record back, and stops right behind it.
pub read_record-serialize :
    (r : WalRecord) (rest : Bytes)
    → IsEncodable r
    → read_record (serialize r ++ rest) ≡ some (raw_of r, rest)
unfolding read_record serialize_record body_of
read_record-serialize r rest h = rw (
  type_byte r.type,
  read_payload-payload r.type r.key r.value rest h.texts,
  little_endian-append_u64 r.lsn h.lsn,
  little_endian-append_u32 r.txn_id h.txn_id,
  little_endian-append_u32 (crc32 (body_of r.lsn r.txn_id r.type r.key r.value))
      (crc32-lt (body_of r.lsn r.txn_id r.type r.key r.value)),
)

-- The checksum of the record as read is that of the body that was written.
pub rebuild_body-raw_of :
    (r : WalRecord)
    → IsEncodable r
    → rebuild_body (raw_of r) ≡ body_of r.lsn r.txn_id r.type r.key r.value
unfolding rebuild_body body_of
rebuild_body-raw_of r h =
    ap (λ t. append_u64 r.lsn ++ (append_u32 r.txn_id ++ (type_code r.type ∷ t)))
      (same_payload r.type r.key r.value)
  where
    same_payload :
        (type : RecordType) (key value : Bytes)
        → (if type_code type == 2
            then text_field key ++ text_field value
            else if type_code type == 3
            then text_field key
            else [])
          ≡ payload type key value
    same_payload RecordType.put key value = unfold payload append_str in refl
    same_payload RecordType.delete key value = unfold payload append_str in refl
    same_payload RecordType.begin key value = unfold payload in refl
    same_payload RecordType.commit key value = unfold payload in refl
    same_payload RecordType.abort key value = unfold payload in refl

-- Reading fails on every text that is shorter than what is asked for.
read_short : (n : ℕ) (file : Bytes) → length file < n → read n file ≡ none
unfolding read
read_short zero file h = absurd (omega arith)
read_short (suc n) [] h = refl
read_short (suc n) (b ∷ file) h = rw (read_short n file (omega arith))
