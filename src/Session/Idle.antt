-- ===== src/Session/Idle.antt =====
-- Command lines outside a transaction.
use concurrent_transactional.Prelude.{Option, some, ◌≡◌}
use concurrent_transactional.Prelude.Map.{nat_order}
use concurrent_transactional.Transaction.{Shared}
use concurrent_transactional.Server.{Server}
use concurrent_transactional.Session.{Reply}

-- The command is answered without a wait, and the shared objects are as before.
abbrev pub Leaves : Shared → Option (Server × Reply) → Type 0
Leaves w r = (s : Server) × (reply : Reply) × (r ≡ some (s, reply)) × (s.shared ≡ w)
