-- ===== src/Store.antt =====
-- src/core/store.h and src/core/store.cpp: the in-memory table `data_`.
-- `std::unordered_map` is an association list with one entry for each key; nothing below depends
-- on the order in which it is listed. The mutex guards one call only and is not part of the state.
pub mod Laws
use concurrent_transactional.Prelude.{
  ℕ, Bytes, Bool, true, false, Option, none, some, List, [], ◌∷◌, length, if◌then◌else◌,
}
use concurrent_transactional.Prelude.Map.{Map, lookup, insert, erase, bytes_order}

pub record Store : Type 0 where
  pub data_ : Map Bytes Bytes

unfoldable pub empty : Store
empty = record { data_ = [] }

-- `some` of the value for `true` with `out_value` set, `none` for `false`.
unfoldable pub get : Bytes → Store → Option Bytes
get key s = lookup key s.data_

unfoldable pub put : Bytes → Bytes → Store → Store
put key value s = record s { data_ = insert key value s.data_ }

abbrev is_some : Option Bytes → Bool
is_some none = false
is_some (some v) = true

-- The Boolean is `erase(key) > 0`.
unfoldable pub delete_key : Bytes → Store → Store × Bool
delete_key key s = (record s { data_ = erase key s.data_ }, is_some (lookup key s.data_))

unfoldable pub exists : Bytes → Store → Bool
exists key s = is_some (lookup key s.data_)

unfoldable pub get_all_keys : Store → List Bytes
get_all_keys s = go s.data_
  where
    go : Map Bytes Bytes → List Bytes
    go [] = []
    go ((k, v) ∷ m) = k ∷ go m

unfoldable pub get_all_entries : Store → List (Bytes × Bytes)
get_all_entries s = s.data_

unfoldable pub size : Store → ℕ
size s = length s.data_

unfoldable pub clear : Store → Store
clear s = record s { data_ = [] }

pub record WriteOp : Type 0 where
  pub key : Bytes
  pub value : Bytes
  pub is_delete : Bool

unfoldable pub apply_op : WriteOp → Store → Store
unfolding put delete_key
apply_op op s = if op.is_delete then (delete_key op.key s).0 else put op.key op.value s

unfoldable pub apply_batch : List WriteOp → Store → Store
apply_batch [] s = s
apply_batch (op ∷ ops) s = apply_batch ops (apply_op op s)
