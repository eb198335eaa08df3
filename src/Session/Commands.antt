-- ===== src/Session/Commands.antt =====
-- What QUIT comes to.
use concurrent_transactional.Prelude.{ℕ, true, false, some, ◌≡◌, refl, arith, Bool-cases, inl, inr}
use concurrent_transactional.Prelude.Map.{lookup, lookup-insert, nat_order}
use concurrent_transactional.Transaction.{Manager, Shared, is_in_transaction, abort}
use concurrent_transactional.Transaction.Abort.{abort-store}
use concurrent_transactional.Server.{Server}
use concurrent_transactional.Session.{Call, closes, write_back, handle_quit}

abort_ends :
    (m : Manager) (w : Shared)
    → is_in_transaction m ≡ true
    → is_in_transaction (abort m w).0 ≡ false
unfolding abort is_in_transaction
abort_ends m w a = rw a refl

-- The session has a manager without an active transaction, and the table is as before.
pub record IsEnded (session : ℕ) (before s : Server) : Type 0 where
  pub manager : Manager
  pub known : lookup session s.txn_managers ≡ some manager
  pub ended : is_in_transaction manager ≡ false
  pub same_store : s.shared.store ≡ before.shared.store

-- QUIT always closes the connection, and its session, whose manager is the one that the server has
-- for it, then has no active transaction; the table is as it was.
pub quit_ends_transaction :
    (c : Call)
    → lookup c.session c.server.txn_managers ≡ some c.manager
    → (s : Server) × (handle_quit c ≡ some (s, closes)) × IsEnded c.session c.server s
unfolding handle_quit write_back
quit_ends_transaction c h =
    let (m, w, status) = abort c.manager c.server.shared in
    elim (Bool-cases (is_in_transaction c.manager)) [
      | inr idle ↦ (
        c.server,
        rw idle refl,
        record { manager = c.manager; known = h; ended = idle; same_store = refl },
      )
      | inl active ↦ (
        write_back c.session m w c.server,
        rw active refl,
        record {
          manager = m;
          known = ground (arith, lookup-insert c.session c.session m c.server.txn_managers);
          ended = abort_ends c.manager c.server.shared active;
          same_store = abort-store c.manager c.server.shared;
        },
      )
    ]
