-- ===== src/Recovery.antt =====
-- src/core/recovery_manager.h and src/core/recovery_manager.cpp: rebuilding the store at start.
-- A file is its bytes, or `none` where it cannot be opened. Reads beyond the end set the stream's
-- fail flag, here `none`; what the program then does with half-read variables it never uses.
pub mod Reading
pub mod Decode
pub mod Torn
pub mod Replay
pub mod Committed
pub mod Refines
pub mod Crash
pub mod Atomicity
use concurrent_transactional.Prelude.{
  ℕ, zero, suc, ◌+◌, ◌*◌, ◌/◌, ◌%◌, ◌^◌, ◌==◌, ltb, leb, Bytes, Bool, true, false, Option, none,
  some, List, [], ◌∷◌, ◌++◌, length, ◌>>=◌, if◌then◌else◌,
}
use concurrent_transactional.Prelude.Map.{Map, lookup, insert, nat_order}
use concurrent_transactional.Store.{Store, put, delete_key}
use concurrent_transactional.Wal.Encoding.{append_u64, append_u32, crc32}
use concurrent_transactional.Wal.{little_endian}
use Reading.{read, read_string, read_entries, Entries, magic_number}

-- A record as it is read, its type still a byte.
pub record RawRecord : Type 0 where
  pub crc : ℕ
  pub lsn : ℕ
  pub txn_id : ℕ
  pub type : ℕ
  pub key : Bytes
  pub value : Bytes

-- The payload, which depends on the type: 2 is PUT and 3 is DELETE.
unfoldable pub read_payload : ℕ → Bytes → Option ((Bytes × Bytes) × Bytes)
read_payload type file =
    if type == 2
    then (do
      (key, file) ← read_string file
      (value, file) ← read_string file
      some ((key, value), file))
    else if type == 3
    then (do (key, file) ← read_string file; some ((key, []), file))
    else some (([], []), file)

-- `none` is the end of the loop by `!file`.
unfoldable pub read_record : Bytes → Option (RawRecord × Bytes)
unfolding read
read_record file = do
  (crc, file) ← read 4 file
  (lsn, file) ← read 8 file
  (txn_id, file) ← read 4 file
  (type, file) ← read 1 file
  (texts, file) ← read_payload (little_endian type) file
  some (
    record {
      crc = little_endian crc;
      lsn = little_endian lsn;
      txn_id = little_endian txn_id;
      type = little_endian type;
      key = texts.0;
      value = texts.1;
    },
    file,
  )

-- `uint16_t klen = key.size()` and the key.
abbrev pub text_field : Bytes → Bytes
text_field s = let len = length s % 2 ^ 16 in (len % 256) ∷ (len / 256 % 256) ∷ s

-- The body for the checksum, from what was read.
unfoldable pub rebuild_body : RawRecord → Bytes
rebuild_body r =
    append_u64 r.lsn
    ++ (append_u32 r.txn_id
        ++ (r.type
            ∷ (if r.type == 2
                then text_field r.key ++ text_field r.value
                else if r.type == 3
                then text_field r.key
                else [])))

-- `Operation`: a write of `some` value, or a deletion.
pub record Operation : Type 0 where
  pub key : Bytes
  pub value : Option Bytes

-- `RecoveryManager::TxnState`
pub record TxnLog : Type 0 where
  pub ops : List Operation
  pub committed : Bool
  pub commit_lsn : ℕ

abbrev pub no_log : TxnLog
no_log = record { ops = []; committed = false; commit_lsn = 0 }

pub record Scan : Type 0 where
  pub txns : Map ℕ TxnLog
  pub commit_order : List (ℕ × ℕ)

-- `txns[txn_id]`
unfoldable pub log_of : ℕ → Map ℕ TxnLog → TxnLog
log_of t m = elim (lookup t m) [ none ↦ no_log | some l ↦ l ]

-- What one record does to the state of its transaction.
unfoldable pub note_log : RawRecord → TxnLog → TxnLog
note_log r l =
    if r.type == 2
    then record l { ops = l.ops ++ record { key = r.key; value = some r.value } ∷ [] }
    else if r.type == 3
    then record l { ops = l.ops ++ record { key = r.key; value = none } ∷ [] }
    else if r.type == 4
    then record l { committed = true; commit_lsn = r.lsn }
    else if r.type == 5
    then record l { committed = false }
    else l

-- The body of the loop after the checksum.
unfoldable pub note_record : ℕ → RawRecord → Scan → Scan
note_record checkpoint_lsn r s = if leb r.lsn checkpoint_lsn then s else record {
  txns = insert r.txn_id (note_log r (log_of r.txn_id s.txns)) s.txns;
  commit_order = if r.type == 4 then s.commit_order ++ (r.txn_id, r.lsn) ∷ [] else s.commit_order;
}

-- The loop over the log. Each round reads 17 bytes or more, so the length of the file is fuel enough.
unfoldable pub scan_wal : ℕ → ℕ → Bytes → Scan → Scan
scan_wal zero checkpoint_lsn file s = s
scan_wal (suc fuel) checkpoint_lsn file s = elim (read_record file) [
  | none ↦ s
  | some (r, rest) ↦ elim (r.crc == crc32 (rebuild_body r)) [
    | false ↦ s
    | true ↦ scan_wal fuel checkpoint_lsn rest (note_record checkpoint_lsn r s)
  ]
]

-- `std::sort` by the commit number.
unfoldable pub insert_commit : ℕ × ℕ → List (ℕ × ℕ) → List (ℕ × ℕ)
insert_commit c [] = c ∷ []
insert_commit c (d ∷ ds) =
    let rest = insert_commit c ds in if ltb d.1 c.1 then d ∷ rest else c ∷ d ∷ ds

unfoldable pub sort_commits : List (ℕ × ℕ) → List (ℕ × ℕ)
sort_commits [] = []
sort_commits (c ∷ cs) = insert_commit c (sort_commits cs)

unfoldable pub apply_operation : Operation → Store → Store
apply_operation op s = elim op.value [ some v ↦ put op.key v s | none ↦ (delete_key op.key s).0 ]

unfoldable pub apply_operations : List Operation → Store → Store
apply_operations [] s = s
apply_operations (op ∷ ops) s = apply_operations ops (apply_operation op s)

-- The loop of step 3.
unfoldable pub apply_commits : List (ℕ × ℕ) → Map ℕ TxnLog → Store → Store
apply_commits [] txns s = s
apply_commits ((t, lsn) ∷ cs) txns s =
    let l = log_of t txns in
    apply_commits cs txns (if l.committed then apply_operations l.ops s else s)

pub record Recovered : Type 0 where
  pub store : Store
  pub checkpoint_lsn : ℕ

-- The `put`s of the loop over the entries.
unfoldable pub put_entries : List (Bytes × Bytes) → Store → Store
put_entries [] s = s
put_entries ((k, v) ∷ es) s = put_entries es (put k v s)

unfoldable pub load_snapshot : Option Bytes → Store → Recovered
load_snapshot file store = elim file [
  | none ↦ record { store = store; checkpoint_lsn = 0 }
  | some text ↦ elim (read_entries text) [
    | none ↦ record { store = store; checkpoint_lsn = 0 }
    | some found ↦ record {
      store = put_entries found.entries store;
      checkpoint_lsn = found.checkpoint_lsn;
    }
  ]
]

abbrev pub no_scan : Scan
no_scan = record { txns = []; commit_order = [] }

unfoldable pub replay_wal : Option Bytes → Recovered → Store
replay_wal file r = elim file [
  | none ↦ r.store
  | some text ↦
      let s = scan_wal (length text) r.checkpoint_lsn text no_scan in
      apply_commits (sort_commits s.commit_order) s.txns r.store
]

-- `recover`, by the contents of `data_file_` and of `wal_file_`.
unfoldable pub recover : Option Bytes → Option Bytes → Store → Store
recover data_file wal_file store = replay_wal wal_file (load_snapshot data_file store)
