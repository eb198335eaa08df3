-- ===== src/Session/Run.antt =====
-- src/server/connection_handler.cpp, `run`: the commands of a client until it is gone. What other
-- sessions do before a command and while it waits is given for each command. Console output is left
-- out, and so is the failure of `send`, which the program does not test.
pub mod Cuts
pub mod Answers
use concurrent_transactional.Prelude.{
  ℕ, zero, suc, ◌+◌, ◌<◌, ◌==◌, Bytes, Bool, true, false, Option, none, some, List, [], ◌∷◌, ◌++◌,
  ◌>>=◌, length, is_empty, if◌then◌else◌, ◌≡◌, refl, arith, sym, ap, subst, append-nil, ◌∙◌,
  Option-cases, Bool-cases, inl, inr, append_assoc,
}
use concurrent_transactional.Server.{Server}
use concurrent_transactional.Transaction.{Others}
use concurrent_transactional.Session.Reports.{get_greeting}
use concurrent_transactional.Session.{Reply, responds, closes, exits, Files, handle_command}
use concurrent_transactional.Session.Lines.{
  Input, get_next_command_line, split_line, strip_return, first_line, concat, line_and_rest,
  get_next_command_line-first_line,
}

-- What the rest of the server does around one command.
pub record Round : Type 0 where
  pub meanwhile : Server → Server
  pub others : Others
  pub files : Files

pub data End : Type 0 where
  disconnected closed exited : End

-- The server, and the bytes sent to the client.
pub record Finished : Type 0 where
  pub server : Server
  pub sent : Bytes
  pub ended : End

abbrev pub write_line : Bytes → Finished → Finished
write_line response f = record f { sent = response ++ (10 ∷ f.sent) }

abbrev pub stop : End → Server → Finished
stop e s = record { server = s; sent = []; ended = e }

-- What `run` does with the answer to a command.
unfoldable pub go_on : (Server → Option Finished) → Option (Server × Reply) → Option Finished
go_on next none = none
go_on next (some (s, responds response)) = do f ← next s; some (write_line response f)
go_on next (some (s, closes)) = some (stop End.closed s)
go_on next (some (s, exits)) = some (stop End.exited s)

-- The body of the loop of `run`, with what comes after it.
unfoldable pub on_line :
    (ℕ → Round) → ℕ → (ℕ → Server → Option Finished) → Bytes → ℕ → Server → Option Finished
on_line rounds session next line n s =
    let r = rounds n in
    elim (is_empty line) [
      | true ↦ next n s
      | false ↦ go_on (next (n + 1)) (handle_command r.others r.files line session (r.meanwhile s))
    ]

-- The loop of `run`, for fewer than `fuel` lines, and `none` where a command does not return.
unfoldable pub run_loop : ℕ → (ℕ → Round) → ℕ → Bytes → List Bytes → ℕ → Server → Option Finished
run_loop zero rounds session inbuf chunks n s = none
run_loop (suc fuel) rounds session inbuf chunks n s = elim (get_next_command_line inbuf chunks) [
  | none ↦ some (stop End.disconnected s)
  | some i ↦ on_line rounds session (run_loop fuel rounds session i.inbuf i.chunks) i.line n s
]

-- Every line takes a byte.
unfoldable pub run : (ℕ → Round) → ℕ → List Bytes → Server → Option Finished
run rounds session chunks s = do
  f ← run_loop (suc (length (concat chunks))) rounds session [] chunks 0 s
  some (write_line (get_greeting session) f)

-- The lines of a text that end in a newline, the first of which has begun with `begun`.
unfoldable pub cut_lines : Bytes → Bytes → List Bytes
cut_lines begun [] = []
cut_lines begun (c ∷ text) = elim (c == 10) [
  | true ↦ strip_return begun ∷ cut_lines [] text
  | false ↦ cut_lines (begun ++ (c ∷ [])) text
]

-- One command for each line that is not empty.
unfoldable pub run_lines : (ℕ → Round) → ℕ → List Bytes → ℕ → Server → Option Finished
run_lines rounds session [] n s = some (stop End.disconnected s)
run_lines rounds session (line ∷ lines) n s =
    on_line rounds session (run_lines rounds session lines) line n s
