-- ===== src/Store/Laws.antt =====
-- What a reader of the table sees after each operation, and after a batch.
use concurrent_transactional.Prelude.{
  Bytes, bytes_eq, Option, none, some, List, [], ◌∷◌, ◌≡◌, refl, arith, if◌then◌else◌,
}
use concurrent_transactional.Prelude.Map.{lookup, lookup-insert, lookup-erase, bytes_order}
use concurrent_transactional.Store.{
  Store, WriteOp, empty, get, put, delete_key, apply_op, apply_batch,
}

pub get-empty : (k : Bytes) → get k empty ≡ none
unfolding get empty lookup
get-empty k = refl

pub get-put :
    (k j v : Bytes) (s : Store) → get j (put k v s) ≡ (if bytes_eq k j then some v else get j s)
unfolding get put
get-put k j v s = lookup-insert k j v s.data_

pub get-delete_key :
    (k j : Bytes) (s : Store) → get j (delete_key k s).0 ≡ (if bytes_eq k j then none else get j s)
unfolding get delete_key
get-delete_key k j s = lookup-erase k j s.data_

-- The result of the last operation of a batch on a key, if there is one.
unfoldable pub last_write : Bytes → List WriteOp → Option (Option Bytes)
last_write k [] = none
last_write k (op ∷ ops) = elim (last_write k ops) [
  | some r ↦ some r
  | none ↦ if bytes_eq op.key k then some (if op.is_delete then none else some op.value) else none
]

unfoldable pub overlay : Option (Option Bytes) → Option Bytes → Option Bytes
overlay none old = old
overlay (some r) old = r

get-apply_op :
    (k : Bytes) (op : WriteOp) (s : Store)
    → get k (apply_op op s)
      ≡ (if bytes_eq op.key k then (if op.is_delete then none else some op.value) else get k s)
unfolding apply_op
get-apply_op k op s = ground (arith, get-put op.key k op.value s, get-delete_key op.key k s)

-- After a batch each key has the result of the last operation of the batch on it, a value if that
-- was a write and nothing if it was a deletion, and a key that the batch does not name is as before.
pub get-apply_batch :
    (k : Bytes) (ops : List WriteOp) (s : Store)
    → get k (apply_batch ops s) ≡ overlay (last_write k ops) (get k s)
unfolding apply_batch last_write overlay
get-apply_batch k [] s = refl
get-apply_batch k (op ∷ ops) s =
    ground (arith, get-apply_op k op s, get-apply_batch k ops (apply_op op s))
