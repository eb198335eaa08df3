-- ===== src/Server.antt =====
-- src/server/server.h and src/server/server.cpp: what the server keeps for its sessions, its start
-- up to the sockets, and the checkpoint. The references to the store, the lock manager, the log and
-- the flush worker are set by the constructor and stay set.
pub mod Start
pub mod Sessions
use concurrent_transactional.Prelude.{
  ℕ, ◌+◌, ◌%◌, ◌^◌, Bytes, Bool, true, false, ◌||◌, not, Option, none, some, List, [], ◌∷◌, ◌>>=◌,
  if◌then◌else◌,
}
use concurrent_transactional.Prelude.Map.{Map, lookup, insert, nat_order}
use concurrent_transactional.Store.{Store}
use concurrent_transactional.Recovery.{recover}
use concurrent_transactional.Wal.{Wal, fsync, get_flushed_lsn}
use concurrent_transactional.Checkpoint.{write_snapshot_file, cut_log}
use concurrent_transactional.Transaction.{
  Shared, Manager, new_manager, set_global_references, is_in_transaction,
}

pub record Server : Type 0 where
  pub shared : Shared
  pub txn_managers : Map ℕ Manager
  pub next_session_id : ℕ
  pub checkpoint_manager : Bool
  pub data_file : Option Bytes

-- The recovery of `start`, by the contents of wal/wal.log and of data/data.db. The log is passed
-- where `RecoveryManager` takes the data file, and the data file where it takes the log.
unfoldable pub recover_on_start : Option Bytes → Option Bytes → Store → Store
recover_on_start wal_log data_db store = recover wal_log data_db store

unfoldable pub has_active_transactions : Map ℕ Manager → Bool
has_active_transactions [] = false
has_active_transactions ((id, m) ∷ rest) =
    if is_in_transaction m then true else has_active_transactions rest

unfoldable pub get_transaction_manager : ℕ → Server → Server × Manager
get_transaction_manager session s = elim (lookup session s.txn_managers) [
  | some m ↦ (s, m)
  | none ↦
      let m = set_global_references true true true true (new_manager session true) in
      (record s { txn_managers = insert session m s.txn_managers }, m)
]

-- The part of `acceptLoop` under the mutex, and its look-up.
unfoldable pub open_session : Server → Server × ℕ
open_session s =
    let id = s.next_session_id in
    let (s', m) =
      get_transaction_manager id
        (record s { next_session_id = (s.next_session_id + 1) % 2 ^ 32 }) in
    (s', id)

unfoldable pub init_after_construction : Server → Server
init_after_construction s = record s { checkpoint_manager = true }

-- What other threads do while a checkpoint is taken: no mutex is held from the test for active
-- transactions to the end.
pub record Meanwhile : Type 0 where
  pub before_sync : Server → Server
  pub before_number : Server → Server
  pub before_entries : Server → Server
  pub before_cut : Server → Server

abbrev pub with_wal : Wal → Server → Server
with_wal w s = record s { shared = record s.shared { wal = w } }

-- Where the number of the checkpoint is taken.
abbrev pub at_number : Bool → Meanwhile → Server → Server
at_number log_opened o s =
    let t = o.before_sync s in o.before_number (with_wal (fsync log_opened t.shared.wal) t)

-- `createCheckpoint` with its three references set. The three Booleans are what the calls of `open`
-- on the log, on the snapshot and again on the log come to. The log manager appends, so what is
-- behind the cut goes on from there. A snapshot that cannot be opened leaves the `rename` with no
-- file, and throws: `none`.
unfoldable pub create_checkpoint : Bool → Bool → Bool → Meanwhile → Server → Option (Server × Bool)
create_checkpoint log_opened snapshot_opened log_found o s =
    let a = at_number log_opened o s in
    let lsn = get_flushed_lsn a.shared.wal in
    let b = o.before_entries a in
    do
      snapshot ← write_snapshot_file snapshot_opened lsn b.shared.store
      let c = o.before_cut (record b { data_file = some snapshot })
      some (with_wal (cut_log log_found lsn c.shared.wal) c, true)

unfoldable pub handle_checkpoint : Bool → Bool → Bool → Meanwhile → Server → Option (Server × Bool)
handle_checkpoint log_opened snapshot_opened log_found o s =
    let taken = create_checkpoint log_opened snapshot_opened log_found o s in
    if not s.checkpoint_manager
    then some (s, false)
    else if has_active_transactions s.txn_managers
    then some (s, false)
    else taken
