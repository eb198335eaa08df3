-- ===== src/Tests/ModelRuns.antt =====
-- Runs of the reference model of the chaos tests.
use concurrent_transactional.Prelude.{bytes_eq, bytes_lt, codes, List, [], ◌∷◌, ◌≡◌, refl, true}
use concurrent_transactional.Prelude.Map.{lookup, insert, bytes_order, nat_order}
use concurrent_transactional.Store.{get}
use concurrent_transactional.Transaction.{apply_pending, new_manager, set_global_references}
use concurrent_transactional.Transaction.Calls.{connected}
use concurrent_transactional.ReferenceModel.{
  OpType, Operation, Reference, begin_txn, push_back, add_put, commit_txn, abort_txn, txn_at,
  order_of, place, sort, apply_one, apply_ops, apply_order, replay_committed,
}
use concurrent_transactional.ReferenceModel.Writes.{write_ops, write_ops-apply_ops}
use concurrent_transactional.Tests.TransactionRuns.{shared, key}

abbrev two_ops : List Operation
two_ops =
    record { type = OpType.put; key = codes "a"; value = codes "1" }
    ∷ record { type = OpType.delete; key = key; value = [] }
    ∷ []

writes_nothing : (connected 1 true).current_txn.pending_buffer ≡ []
unfolding new_manager set_global_references
writes_nothing = refl

write_ops-apply_ops_example :
    get key (
      apply_pending
        (write_ops two_ops (connected 1 true) shared).current_txn.pending_buffer
        shared.store)
    ≡ lookup key (apply_ops two_ops shared.store.data_)
write_ops-apply_ops_example =
    write_ops-apply_ops two_ops (connected 1 true) shared key writes_nothing

-- Transaction 1 commits after 2, and 3 not at all.
abbrev three : Reference
three = abort_txn 3 (
    add_put 3 key (codes "third") (
      begin_txn 3 (
        commit_txn 1 9 (
          commit_txn 2 5 (
            add_put 2 key (codes "second") (
              begin_txn 2
                (add_put 1 key (codes "first") (begin_txn 1 (record { txns = []; db = [] })))))))))

last_commit_wins : (replay_committed three).db ≡ (key, codes "first") ∷ []
unfolding replay_committed abort_txn commit_txn add_put begin_txn push_back txn_at order_of place
    sort apply_one apply_ops apply_order lookup insert bytes_eq bytes_lt
last_commit_wins = refl
