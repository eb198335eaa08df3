-- ===== src/Session.antt =====
-- src/server/connection_handler.cpp, its `handleCommand`, one function for each command. The empty
-- answer, on which `run` closes the connection, is `closes`. Console output is left out.
pub mod Lines
pub mod Run
pub mod Reports
pub mod Dispatch
pub mod Idle
pub mod Abandoned
pub mod Commands
use concurrent_transactional.Prelude.{
  ℕ, ◌==◌, Bytes, codes, bytes_eq, Bool, true, false, ◌&&◌, Option, none, some, List, [], ◌∷◌, ◌++◌,
  length, is_empty, ◌>>=◌, if◌then◌else◌,
}
use concurrent_transactional.Prelude.Map.{Map, insert, nat_order}
use concurrent_transactional.Types.{lock_mode_to_string, IsolationLevel, parse_isolation_level}
use concurrent_transactional.Locks.{Locks}
use concurrent_transactional.Locks.Entry.{Waiter, LockEntry}
use concurrent_transactional.Parser.{Command, parse}
use concurrent_transactional.Transaction.{Manager, Shared, Others, is_in_transaction}
use concurrent_transactional.Transaction.Replies.{Status, message, to_string}
use concurrent_transactional.Transaction
use Reports.{get_stats, dump_lock_table}
use concurrent_transactional.Server.{Server, Meanwhile, get_transaction_manager, handle_checkpoint}

-- `exits` is the end of the whole server, by CRASH.
pub data Reply : Type 0 where
  responds : Bytes → Reply
  closes exits : Reply

-- `ERROR: ` and the message, or the answer where there is none.
unfoldable pub answer : Status → Bytes → Reply
answer status ok =
    if is_empty (message status) then responds ok else responds (codes "ERROR: " ++ message status)

-- The manager of the session and the shared objects, written back after a call.
unfoldable pub write_back : ℕ → Manager → Shared → Server → Server
write_back session m w s = record s { shared = w; txn_managers = insert session m s.txn_managers }

-- What `open` comes to for the files of a checkpoint, and what other threads do while it is taken.
pub record Files : Type 0 where
  pub log_opened : Bool
  pub snapshot_opened : Bool
  pub log_found : Bool
  pub meanwhile : Meanwhile

-- What a command works on: the session's number, its manager and the server.
pub record Call : Type 0 where
  pub session : ℕ
  pub manager : Manager
  pub server : Server

abbrev pub finish : Call → Manager → Shared → Reply → Option (Server × Reply)
finish c m w reply = some (write_back c.session m w c.server, reply)

abbrev pub refuse : Call → Bytes → Option (Server × Reply)
refuse c text = some (c.server, responds (codes "ERROR: " ++ text))

abbrev level_of : List Bytes → IsolationLevel
level_of [] = IsolationLevel.repeatable_read
level_of (arg ∷ rest) = parse_isolation_level arg

unfoldable pub handle_begin : List Bytes → Call → Option (Server × Reply)
handle_begin args c =
    let (m, w, status) = Transaction.begin (level_of args) c.manager c.server.shared in
    finish c m w
      (answer status (codes "txn " ++ (to_string m.current_txn.txn_id ++ codes " started.")))

unfoldable pub handle_put : Others → List Bytes → Call → Option (Server × Reply)
handle_put others [] c = refuse c (codes "PUT requires key and value")
handle_put others (key ∷ []) c = refuse c (codes "PUT requires key and value")
handle_put others (key ∷ value ∷ rest) c =
    let (m, w, status) = Transaction.put others key value c.manager c.server.shared in
    finish c m w (answer status (codes "OK"))

unfoldable pub handle_get : Others → List Bytes → Call → Option (Server × Reply)
handle_get others [] c = refuse c (codes "GET requires key")
handle_get others (key ∷ rest) c =
    let ((m, w, status), value) = Transaction.get others key c.manager c.server.shared in
    finish c m w
      (if is_empty (message status) && is_empty value then closes else answer status value)

unfoldable pub handle_delete : Others → List Bytes → Call → Option (Server × Reply)
handle_delete others [] c = refuse c (codes "DELETE requires key")
handle_delete others (key ∷ rest) c =
    let (m, w, status) = Transaction.delete_key others key c.manager c.server.shared in
    finish c m w (answer status (codes "OK"))

-- `none` where the commit does not return.
unfoldable pub handle_commit : Others → Call → Option (Server × Reply)
handle_commit others c = do
  r ← Transaction.commit others c.manager c.server.shared
  finish c r.0 r.1
      (answer r.2 (codes "txn " ++ (to_string c.manager.current_txn.txn_id ++ codes " committed.")))

unfoldable pub handle_abort : Call → Option (Server × Reply)
handle_abort c =
    let (m, w, status) = Transaction.abort c.manager c.server.shared in
    finish c m w (answer status (codes "OK"))

unfoldable pub handle_quit : Call → Option (Server × Reply)
handle_quit c =
    let (m, w, status) = Transaction.abort c.manager c.server.shared in
    if is_in_transaction c.manager then finish c m w closes else some (c.server, closes)

unfoldable pub handle_checkpoint_command : Files → Call → Option (Server × Reply)
handle_checkpoint_command files c = do
  r ←
      handle_checkpoint files.log_opened files.snapshot_opened files.log_found files.meanwhile
        c.server
  some (
    r.0,
    responds (
        if r.1
        then codes "CHECKPOINT OK"
        else codes "ERROR: checkpoint refused (active transactions exist)"),
  )

unfoldable pub dispatch : Others → Files → Command → Call → Option (Server × Reply)
dispatch others files cmd c =
    if is_empty cmd.name
    then refuse c (codes "Empty command")
    else if bytes_eq cmd.name (codes "BEGIN")
    then handle_begin cmd.args c
    else if bytes_eq cmd.name (codes "PUT")
    then handle_put others cmd.args c
    else if bytes_eq cmd.name (codes "GET")
    then handle_get others cmd.args c
    else if bytes_eq cmd.name (codes "DELETE")
    then handle_delete others cmd.args c
    else if bytes_eq cmd.name (codes "COMMIT")
    then handle_commit others c
    else if bytes_eq cmd.name (codes "ABORT")
    then handle_abort c
    else if bytes_eq cmd.name (codes "\\STATS")
    then some (c.server, responds (get_stats c.manager))
    else if bytes_eq cmd.name (codes "\\LOCKS")
    then some (c.server, responds (dump_lock_table c.server.shared.locks))
    else if bytes_eq cmd.name (codes "CRASH")
    then some (c.server, exits)
    else if bytes_eq cmd.name (codes "QUIT")
    then handle_quit c
    else if bytes_eq cmd.name (codes "CHECKPOINT")
    then handle_checkpoint_command files c
    else refuse c (codes "Unknown command: " ++ cmd.name)

-- An empty line is never passed on by `run`.
unfoldable pub handle_command : Others → Files → Bytes → ℕ → Server → Option (Server × Reply)
handle_command others files line session s =
    let (s', m) = get_transaction_manager session s in
    do
      cmd ← parse line
      dispatch others files cmd (record { session = session; manager = m; server = s' })
