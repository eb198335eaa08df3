-- ===== src/ReferenceModel/Writes.antt =====
-- A transaction of the server against the same operations of the reference model.
use concurrent_transactional.Prelude.{
  Bytes, bytes_eq, Bool, true, false, Option, some, List, [], ◌∷◌, ◌≡◌, refl, arith, sym, subst, ap,
  ◌∙◌, if◌then◌else◌, Bool-cases, inl, inr,
}
use concurrent_transactional.Prelude.Map.{
  Map, lookup, insert, lookup-insert, lookup-erase, bytes_order,
}
use concurrent_transactional.Prelude.Sorted.{Sorted, insert-Sorted}
use concurrent_transactional.Store.{Store, get}
use concurrent_transactional.Transaction.{Manager, Shared, finish_write, apply_pending}
use concurrent_transactional.Transaction.Commit.{get-apply_pending, outcome}
use concurrent_transactional.ReferenceModel.{OpType, Operation, apply_one, apply_ops}

abbrev pub entry_of : Operation → Bytes × Bool
entry_of op = elim op.type [ OpType.put ↦ (op.value, false) | OpType.delete ↦ ([], true) ]

-- The calls of `put` and `delete_key`, each with its lock.
unfoldable pub write_ops : List Operation → Manager → Shared → Manager
write_ops [] m w = m
write_ops (op ∷ ops) m w = write_ops ops (finish_write op.key (entry_of op) true m w).0 w

-- The buffer would leave the keys as the reference model has them.
record Agrees (pending : Map Bytes (Bytes × Bool)) (t : Store) (db : Map Bytes Bytes) : Type 0 where
  in_order : Sorted pending
  same : (k : Bytes) → outcome (lookup k pending) (get k t) ≡ lookup k db

written :
    (type : OpType) (key value : Bytes) (k : Bytes) (old : Option (Bytes × Bool))
    (base : Option Bytes) (db : Map Bytes Bytes)
    → outcome old base ≡ lookup k db
    → outcome
        (if bytes_eq key k
          then some (entry_of (record { type = type; key = key; value = value }))
          else old)
        base
      ≡ lookup k (apply_one (record { type = type; key = key; value = value }) db)
unfolding apply_one outcome
written OpType.put key value k old base db h = elim (Bool-cases (bytes_eq key k)) [
  | inl b ↦ ground (arith, lookup-insert key k value db, b)
  | inr b ↦ ground (arith, lookup-insert key k value db, b, h)
]
written OpType.delete key value k old base db h = elim (Bool-cases (bytes_eq key k)) [
  | inl b ↦ ground (arith, lookup-erase key k db, b)
  | inr b ↦ ground (arith, lookup-erase key k db, b, h)
]

insert-Agrees :
    (op : Operation) (pending : Map Bytes (Bytes × Bool)) (t : Store) (db : Map Bytes Bytes)
    → Agrees pending t db
    → Agrees (insert op.key (entry_of op) pending) t (apply_one op db)
insert-Agrees op pending t db h = record {
  in_order = insert-Sorted op.key (entry_of op) pending h.in_order;
  same = λ k.
      ap (λ x. outcome x (get k t)) (lookup-insert op.key k (entry_of op) pending)
      ∙ written op.type op.key op.value k (lookup k pending) (get k t) db (h.same k);
}

write_ops-Agrees :
    (ops : List Operation) (m : Manager) (w : Shared) (db : Map Bytes Bytes)
    → Agrees m.current_txn.pending_buffer w.store db
    → Agrees (write_ops ops m w).current_txn.pending_buffer w.store (apply_ops ops db)
unfolding write_ops apply_ops finish_write
write_ops-Agrees [] m w db h = h
write_ops-Agrees (op ∷ ops) m w db h =
    write_ops-Agrees ops (finish_write op.key (entry_of op) true m w).0 w (apply_one op db)
      (insert-Agrees op m.current_txn.pending_buffer w.store db h)

nothing : (t : Store) → Agrees [] t t.data_
unfolding outcome lookup get
nothing t = record { in_order = tt; same = λ k. refl }

-- A transaction that has written nothing yet and then makes any calls of `put` and `delete_key`, each
-- of which gets its lock: what its buffer leaves in the table when it is applied is, at each key,
-- what the reference model has there after the same operations, one by one, on the same table.
pub write_ops-apply_ops :
    (ops : List Operation) (m : Manager) (w : Shared) (k : Bytes)
    → m.current_txn.pending_buffer ≡ []
    → get k (apply_pending (write_ops ops m w).current_txn.pending_buffer w.store)
      ≡ lookup k (apply_ops ops w.store.data_)
write_ops-apply_ops ops m w k e =
    let start : Agrees m.current_txn.pending_buffer w.store w.store.data_ =
      begins m.current_txn.pending_buffer e in
    let h = write_ops-Agrees ops m w w.store.data_ start in
    get-apply_pending k (write_ops ops m w).current_txn.pending_buffer w.store h.in_order ∙ h.same k
  where
    begins : (p : Map Bytes (Bytes × Bool)) → p ≡ [] → Agrees p w.store w.store.data_
    begins p e = subst (λ x. Agrees x w.store w.store.data_) (sym e) (nothing w.store)
