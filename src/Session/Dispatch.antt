-- ===== src/Session/Dispatch.antt =====
-- What holds of every command, from what holds of each.
use concurrent_transactional.Prelude.{
  Bytes, codes, bytes_eq, true, Option, some, is_empty, ◌≡◌, if_both,
}
use concurrent_transactional.Parser.{Command}
use concurrent_transactional.Transaction.{Others}
use concurrent_transactional.Server.{Server}
use concurrent_transactional.Session.{
  Files, Call, Reply, handle_begin, handle_put, handle_get, handle_delete, handle_commit,
  handle_abort, handle_quit, handle_checkpoint_command, dispatch,
}

-- The command is of the name.
abbrev pub IsCalled : Bytes → Command → Type 0
IsCalled name cmd = bytes_eq cmd.name name ≡ true

pub record Each (P : Option (Server × Reply) → Type 0) (others : Others) (files : Files)
    (cmd : Command) (c : Call) : Type 0 where
  pub says : (reply : Reply) → P (some (c.server, reply))
  pub begins : IsCalled (codes "BEGIN") cmd → P (handle_begin cmd.args c)
  pub puts : P (handle_put others cmd.args c)
  pub gets : P (handle_get others cmd.args c)
  pub deletes : P (handle_delete others cmd.args c)
  pub commits : P (handle_commit others c)
  pub aborts : P (handle_abort c)
  pub quits : P (handle_quit c)
  pub checkpoints : IsCalled (codes "CHECKPOINT") cmd → P (handle_checkpoint_command files c)

pub dispatch-Each :
    (P : Option (Server × Reply) → Type 0) (others : Others) (files : Files) (cmd : Command)
    (c : Call)
    → Each P others files cmd c
    → P (dispatch others files cmd c)
unfolding dispatch
dispatch-Each P others files cmd c e =
    if_both P (is_empty cmd.name) _ _ (λ b. e.says _)
      (λ b. if_both P (bytes_eq cmd.name (codes "BEGIN")) _ _ e.begins (λ b.
        if_both P (bytes_eq cmd.name (codes "PUT")) _ _ (λ b. e.puts)
          (λ b.
            if_both P (bytes_eq cmd.name (codes "GET")) _ _ (λ b. e.gets)
              (λ b.
                if_both P (bytes_eq cmd.name (codes "DELETE")) _ _ (λ b. e.deletes)
                  (λ b.
                    if_both P (bytes_eq cmd.name (codes "COMMIT")) _ _ (λ b. e.commits)
                      (λ b.
                        if_both P (bytes_eq cmd.name (codes "ABORT")) _ _ (λ b. e.aborts)
                          (λ b.
                            if_both P (bytes_eq cmd.name (codes "\\STATS")) _ _ (λ b. e.says _)
                              (λ b.
                                if_both P (bytes_eq cmd.name (codes "\\LOCKS")) _ _ (λ b. e.says _)
                                  (λ b.
                                    if_both P (bytes_eq cmd.name (codes "CRASH")) _ _
                                      (λ b. e.says _)
                                      (λ b.
                                        if_both P (bytes_eq cmd.name (codes "QUIT")) _ _
                                          (λ b. e.quits)
                                          (λ b.
                                            if_both P (bytes_eq cmd.name (codes "CHECKPOINT")) _ _
                                              e.checkpoints (λ b. e.says _))))))))))))
