-- ===== src/Session/Abandoned.antt =====
-- A client that is gone without QUIT: `run` ends no transaction when its socket closes.
use concurrent_transactional.Prelude.{
  ℕ, Bytes, Bool, true, false, not, Option, none, some, List, [], ◌∷◌, ◌>>=◌, ◌≡◌, refl, if_both,
}
use concurrent_transactional.Prelude.Map.{Map, lookup, nat_order}
use concurrent_transactional.Transaction.{Manager, Others}
use concurrent_transactional.Server.{Server, Meanwhile, has_active_transactions, handle_checkpoint}
use concurrent_transactional.Session.{Files, Reply, handle_command}

-- A line that a client sends.
pub record Sent : Type 0 where
  pub session : ℕ
  pub line : Bytes
  pub others : Others
  pub files : Files

-- Lines of clients, one after another: `none` where a command does not return.
unfoldable pub run_sent : List Sent → Server → Option Server
run_sent [] s = some s
run_sent (x ∷ xs) s = do r ← handle_command x.others x.files x.line x.session s; run_sent xs r.0

pub handle_checkpoint-refused :
    (log_opened snapshot_opened log_found : Bool) (o : Meanwhile) (s : Server)
    → has_active_transactions s.txn_managers ≡ true
    → handle_checkpoint log_opened snapshot_opened log_found o s ≡ some (s, false)
unfolding handle_checkpoint
handle_checkpoint-refused a b c o s h =
    if_both (λ x. x ≡ some (s, false)) (not s.checkpoint_manager) _ _ (λ d. refl) (λ d. rw h refl)

-- The manager of the session is as before.
abbrev Has : ℕ → Manager → Server → Type 0
Has j m s = lookup j s.txn_managers ≡ some m

abbrev Keeps : ℕ → Manager → Option (Server × Reply) → Type 0
Keeps j m none = Unit
Keeps j m (some r) = Has j m r.0
