-- ===== src/ReferenceModel.antt =====
-- src/chaos_tests/reference_model.cpp: what the chaos tests compare the server with. `std::sort` is a
-- sort by insertion; the commit orders of a test differ, so nothing depends on where equal ones go.
pub mod Writes
use concurrent_transactional.Prelude.{
  ℕ, ltb, Bytes, Bool, true, false, Option, none, some, List, [], ◌∷◌, ◌++◌, if◌then◌else◌,
}
use concurrent_transactional.Prelude.Map.{Map, lookup, insert, erase, bytes_order, nat_order}

pub data OpType : Type 0 where
  put delete : OpType

pub record Operation : Type 0 where
  pub type : OpType
  pub key : Bytes
  pub value : Bytes

pub record Transaction : Type 0 where
  pub ops : List Operation
  pub committed : Bool
  pub commit_order : ℕ

pub record Reference : Type 0 where
  pub txns : Map ℕ Transaction
  pub db : Map Bytes Bytes

abbrev pub empty_txn : Transaction
empty_txn = record { ops = []; committed = false; commit_order = 0 }

-- `txns_[id]`, which makes a transaction where there is none.
unfoldable pub txn_at : ℕ → Map ℕ Transaction → Transaction
txn_at id txns = elim (lookup id txns) [ none ↦ empty_txn | some t ↦ t ]

unfoldable pub begin_txn : ℕ → Reference → Reference
begin_txn id r = record r { txns = insert id empty_txn r.txns }

unfoldable pub push_back : ℕ → Operation → Reference → Reference
push_back id op r =
    let t = txn_at id r.txns in
    record r { txns = insert id (record t { ops = t.ops ++ (op ∷ []) }) r.txns }

unfoldable pub add_put : ℕ → Bytes → Bytes → Reference → Reference
add_put id key value r = push_back id (record { type = OpType.put; key = key; value = value }) r

unfoldable pub add_delete : ℕ → Bytes → Reference → Reference
add_delete id key r = push_back id (record { type = OpType.delete; key = key; value = [] }) r

unfoldable pub commit_txn : ℕ → ℕ → Reference → Reference
commit_txn id order r =
    let t = txn_at id r.txns in
    record r { txns = insert id (record t { committed = true; commit_order = order }) r.txns }

unfoldable pub abort_txn : ℕ → Reference → Reference
abort_txn id r =
    let t = txn_at id r.txns in
    record r { txns = insert id (record t { committed = false }) r.txns }

-- The first loop of `replayCommitted`.
unfoldable pub order_of : Map ℕ Transaction → List (ℕ × ℕ)
order_of [] = []
order_of ((id, t) ∷ txns) =
    let rest = order_of txns in if t.committed then (id, t.commit_order) ∷ rest else rest

unfoldable pub place : ℕ × ℕ → List (ℕ × ℕ) → List (ℕ × ℕ)
place x [] = x ∷ []
place x (y ∷ order) = let rest = place x order in if ltb y.1 x.1 then y ∷ rest else x ∷ y ∷ order

unfoldable pub sort : List (ℕ × ℕ) → List (ℕ × ℕ)
sort [] = []
sort (x ∷ order) = place x (sort order)

-- The body of the inner loop.
unfoldable pub apply_one : Operation → Map Bytes Bytes → Map Bytes Bytes
apply_one op db = elim op.type [
  | OpType.put ↦ insert op.key op.value db
  | OpType.delete ↦ erase op.key db
]

unfoldable pub apply_ops : List Operation → Map Bytes Bytes → Map Bytes Bytes
apply_ops [] db = db
apply_ops (op ∷ ops) db = apply_ops ops (apply_one op db)

unfoldable pub apply_order : List (ℕ × ℕ) → Map ℕ Transaction → Map Bytes Bytes → Map Bytes Bytes
apply_order [] txns db = db
apply_order (x ∷ order) txns db = apply_order order txns (apply_ops (txn_at x.0 txns).ops db)

unfoldable pub replay_committed : Reference → Reference
replay_committed r = record r { db = apply_order (sort (order_of r.txns)) r.txns [] }

unfoldable pub clear : Reference → Reference
clear r = record { txns = []; db = [] }
