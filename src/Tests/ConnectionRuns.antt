-- ===== src/Tests/ConnectionRuns.antt =====
-- A connection.
use concurrent_transactional.Prelude.{
  ℕ, Bytes, codes, Option, none, some, true, List, [], ◌∷◌, ◌>>=◌, ◌≡◌,
}
use concurrent_transactional.Server.{Server}
use concurrent_transactional.Prelude.Map.{nat_order}
use concurrent_transactional.Session.Abandoned.{Sent}
use concurrent_transactional.Session.Reports.{get_greeting}
use concurrent_transactional.Session.Lines.{concat}
use concurrent_transactional.Session.Run.{Round, write_line, run, run_lines, cut_lines}
use concurrent_transactional.Session.Run.Answers.{run-lines}
use concurrent_transactional.Tests.TransactionRuns.{flushes}
use concurrent_transactional.Tests.ServerRuns.{undisturbed, quiet, busy}

abbrev rounds : ℕ → Round
rounds n = record {
  meanwhile = λ s. s;
  others = flushes;
  files = record {
    log_opened = true;
    snapshot_opened = true;
    log_found = true;
    meanwhile = undisturbed;
  };
}

-- `BEGIN`, an empty line, and `QUIT` in two parts.
abbrev chunks : List Bytes
chunks = codes "BEGIN\n\nQU" ∷ codes "IT\n" ∷ []

run-lines_example : run rounds 9 chunks quiet ≡ (do
  f ← run_lines rounds 9 (cut_lines [] (concat chunks)) 0 quiet
  some (write_line (get_greeting 9) f))
run-lines_example = run-lines rounds 9 chunks quiet

-- A command that there is not, from session 8, which has no transaction.
abbrev noise : Bytes
noise = codes "HELLO"

-- Session 7 has left its transaction, and session 8 sends a line.
abbrev lines : List Sent
lines = record { session = 8; line = noise; others = flushes; files = (rounds 0).files } ∷ []

abbrev or_busy : Option Server → Server
or_busy none = busy
or_busy (some s) = s
