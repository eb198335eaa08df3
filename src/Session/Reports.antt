-- ===== src/Session/Reports.antt =====
-- The texts that only report: `TransactionManager::getStats`, `LockManager::dumpLockTable` and the
-- greeting of src/protocol/protocol.cpp.
use concurrent_transactional.Prelude.{
  ℕ, Bytes, codes, List, [], ◌∷◌, ◌++◌, length, is_empty, if◌then◌else◌,
}
use concurrent_transactional.Prelude.Map.{Map, nat_order}
use concurrent_transactional.Types.{lock_mode_to_string}
use concurrent_transactional.Locks.{Locks}
use concurrent_transactional.Locks.Entry.{Waiter, LockEntry}
use concurrent_transactional.Transaction.{Manager, is_in_transaction}
use concurrent_transactional.Transaction.Replies.{to_string}

abbrev newline : Bytes
newline = 10 ∷ []

unfoldable pub get_greeting : ℕ → Bytes
get_greeting session = codes "KVDB ready (session " ++ (to_string session ++ codes ")")

unfoldable pub get_stats : Manager → Bytes
get_stats m =
    let active = is_in_transaction m in
    codes "session: "
    ++ (to_string m.session_id
        ++ (newline
            ++ ((if active
                  then codes "active txn: "
                    ++ (to_string m.current_txn.txn_id
                        ++ (newline
                            ++ (codes "locks held: "
                                ++ (to_string (length m.current_txn.locks_held) ++ newline))))
                  else codes "active txn: none" ++ (newline ++ (codes "locks held: 0" ++ newline)))
                ++ (codes "total commits: "
                    ++ (to_string m.total_commits
                        ++ (newline
                            ++ (codes "deadlock aborts: " ++ to_string m.deadlock_aborts)))))))

unfoldable pub dump_holders : List ℕ → Bytes
dump_holders [] = []
dump_holders (t ∷ ts) = to_string t ++ (codes " " ++ dump_holders ts)

unfoldable pub dump_waiters : List Waiter → Bytes
dump_waiters [] = []
dump_waiters (w ∷ ws) =
    codes "Txn"
    ++ (to_string w.txn_id
        ++ (codes "(" ++ (lock_mode_to_string w.requested_mode ++ (codes ") " ++ dump_waiters ws))))

unfoldable pub dump_entries : Map Bytes LockEntry → Bytes
dump_entries [] = []
dump_entries ((key, e) ∷ rest) =
    codes "Key: \""
    ++ (key
        ++ (codes "\""
            ++ (newline
                ++ (codes "  Mode: "
                    ++ (lock_mode_to_string e.current_mode
                        ++ (newline
                            ++ (codes "  Holders: "
                                ++ (dump_holders e.holders
                                    ++ (newline
                                        ++ ((if is_empty e.wait_queue
                                              then []
                                              else codes "  Waiters: "
                                                ++ (dump_waiters e.wait_queue ++ newline))
                                            ++ dump_entries rest))))))))))

unfoldable pub dump_lock_table : Locks → Bytes
dump_lock_table l =
    codes "=== Lock Table ==="
    ++ (newline
        ++ (if is_empty l.table then codes "No locks held." ++ newline else dump_entries l.table))
