-- ===== src/Server/Sessions.antt =====
-- When the server takes a checkpoint, and what it then leaves.
use concurrent_transactional.Prelude.{ℕ, Bool, false, some, ◌≡◌, All}
use concurrent_transactional.Prelude.Map.{Map}
use concurrent_transactional.Store.{get_all_entries}
use concurrent_transactional.Wal.{get_flushed_lsn}
use concurrent_transactional.Checkpoint.{snapshot_text}
use concurrent_transactional.Transaction.{Manager, is_in_transaction}
use concurrent_transactional.Server.{Server, Meanwhile, at_number}

abbrev pub AllIdle : Map ℕ Manager → Type 0
AllIdle = All (λ p. is_in_transaction p.1 ≡ false)

-- The snapshot has the number that was flushed when it was taken, and the table of a later instant.
pub record IsCheckpointed (log_opened : Bool) (o : Meanwhile) (s s' : Server) : Type 0 where
  pub quiet : AllIdle s.txn_managers
  pub snapshot :
      let a = at_number log_opened o s in
      s'.data_file
      ≡ some (
          snapshot_text
            (get_flushed_lsn a.shared.wal)
            (get_all_entries (o.before_entries a).shared.store))
