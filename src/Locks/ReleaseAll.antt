-- ===== src/Locks/ReleaseAll.antt =====
-- `releaseAllLocks` takes every lock from a transaction that waits for none.
use concurrent_transactional.Prelude.{
  ℕ, Bytes, bytes_eq, bytes_eq_iff, bytes_eq_refl, true, false, List, [], ◌∷◌, ◌≡◌, refl, arith,
  Bool-cases, Option-cases, none, some, inl, inr, ◌⊎◌, sym, subst, ap, ◌∙◌,
}
use concurrent_transactional.Prelude.Map.{Map, lookup, bytes_order}
use concurrent_transactional.Types.{LockMode}
use concurrent_transactional.Locks.Entry.{LockEntry, Cells, contains, release_entry}
use concurrent_transactional.Locks.Table.{
  entry_in-insert, entry_in-found, process_keys-unused, erase_keys-P, release_found-P,
}
use concurrent_transactional.Locks.{
  Locks, entry_in, release_found, process_keys, keys_to_process, release_all_locks, has_lock,
}
use concurrent_transactional.Locks.Exclusion.{has_lock-entry_in}
use concurrent_transactional.Locks.Release.{IsFree, NoWaiter, fresh-IsFree, release_entry-IsFree}

module _ (t : ℕ) where
  keeps : (e : LockEntry) (flags : Cells) → IsFree t e → IsFree t (release_entry t e flags).entry
  keeps e flags f = release_entry-IsFree t e flags f.no_waiter

  -- One key of the loop of `releaseAllLocks`.
  release_found-IsFree :
      (key : Bytes) (e : LockEntry) (l : Locks)
      → NoWaiter t e.wait_queue
      → IsFree t (entry_in key (release_found t key e l).0.table)
  unfolding release_found
  release_found-IsFree key e l n =
      rw (entry_in-insert, bytes_eq_refl key) (release_entry-IsFree t e l.flags n)

  -- The key is still to be processed, or is free already.
  abbrev Handled : Bytes → Locks → List Bytes → Type 0
  Handled j l [] = IsFree t (entry_in j l.table)
  Handled j l (k ∷ ks) = (k ≡ j) ⊎ Handled j l ks

  Handled-release_found :
      (j k : Bytes) (e : LockEntry) (l : Locks) (ks : List Bytes)
      → lookup k l.table ≡ some e
      → Handled j l ks
      → Handled j (release_found t k e l).0 ks
  Handled-release_found j k e l [] found h =
      release_found-P (IsFree t) t keeps (λ e' f u. fresh-IsFree t) j k e l found h
  Handled-release_found j k e l (i ∷ ks) found (inl s) = inl s
  Handled-release_found j k e l (i ∷ ks) found (inr h) =
      inr (Handled-release_found j k e l ks found h)

  free-Handled :
      (j : Bytes) (l : Locks) (ks : List Bytes) → IsFree t (entry_in j l.table) → Handled j l ks
  free-Handled j l [] f = f
  free-Handled j l (k ∷ ks) f = inr (free-Handled j l ks f)

  -- A key that has no entry is skipped.
  skip-Handled :
      (j k : Bytes) (ks : List Bytes) (l : Locks)
      → lookup k l.table ≡ none
      → Handled j l (k ∷ ks)
      → Handled j l ks
  unfolding entry_in
  skip-Handled j k ks l e (inr h) = h
  skip-Handled j k ks l e (inl s) =
      free-Handled j l ks (rw (subst (λ i. lookup i l.table ≡ none) s e, entry_in) (fresh-IsFree t))

  NoWaiter-release_found :
      (j k : Bytes) (e : LockEntry) (l : Locks)
      → lookup k l.table ≡ some e
      → NoWaiter t (entry_in j l.table).wait_queue
      → NoWaiter t (entry_in j (release_found t k e l).0.table).wait_queue
  NoWaiter-release_found j k e l found n =
      release_found-P (λ x. NoWaiter t x.wait_queue) t
        (λ e' f n'. (release_entry-IsFree t e' f n').no_waiter) (λ e' n' u. tt) j k e l found n

  process-Handled :
      (j k : Bytes) (e : LockEntry) (ks : List Bytes) (l : Locks)
      → lookup k l.table ≡ some e
      → NoWaiter t (entry_in j l.table).wait_queue
      → Handled j l (k ∷ ks)
      → Handled j (release_found t k e l).0 ks
  process-Handled j k e ks l found n (inr h) = Handled-release_found j k e l ks found h
  process-Handled j k e ks l found n (inl s) = free-Handled j (release_found t k e l).0 ks (
      subst (λ i. IsFree t (entry_in i (release_found t k e l).0.table)) s
        (release_found-IsFree k e l (
          subst (λ x. NoWaiter t x.wait_queue) (entry_in-found k e l.table found)
            (subst (λ i. NoWaiter t (entry_in i l.table).wait_queue) (sym s) n))))

  process_keys-IsFree :
      (j : Bytes) (ks : List Bytes) (l : Locks)
      → NoWaiter t (entry_in j l.table).wait_queue
      → Handled j l ks
      → IsFree t (entry_in j (process_keys t ks l).0.table)
  unfolding process_keys
  process_keys-IsFree j [] l n h = h
  process_keys-IsFree j (k ∷ ks) l n h = elim (Option-cases (lookup k l.table)) [
    | inl e ↦ rw (e, process_keys) (process_keys-IsFree j ks l n (skip-Handled j k ks l e h))
    | inr (e, found) ↦
        rw (found, process_keys)
          (process_keys-IsFree j ks (release_found t k e l).0
            (NoWaiter-release_found j k e l found n) (process-Handled j k e ks l found n h))
  ]

  keys_to_process-Handled :
      (j : Bytes) (l : Locks) (m : Map Bytes LockEntry)
      → (contains t (entry_in j m).holders ≡ false → IsFree t (entry_in j l.table))
      → Handled j l (keys_to_process t m)
  unfolding keys_to_process entry_in contains lookup
  keys_to_process-Handled j l [] h = h refl
  keys_to_process-Handled j l ((k, e) ∷ m) h = elim (Bool-cases (bytes_eq k j)) [
    | inl same ↦ elim (Bool-cases (contains t e.holders)) [
      | inl c ↦ rw c (inl ((bytes_eq_iff k j).0 same))
      | inr c ↦ rw c (
          free-Handled j l (keys_to_process t m)
            (h (ap (λ x. contains t x.holders) (entry_in-here same) ∙ c)))
    ]
    | inr other ↦
        let rest =
          keys_to_process-Handled j l m
            (λ c. h (ap (λ x. contains t x.holders) (entry_in-later other) ∙ c)) in
        elim (Bool-cases (contains t e.holders)) [ inl c ↦ rw c (inr rest) | inr c ↦ rw c rest ]
  ]
    where
      entry_in-here : bytes_eq k j ≡ true → entry_in j ((k, e) ∷ m) ≡ e
      entry_in-here same = ground arith

      entry_in-later : bytes_eq k j ≡ false → entry_in j ((k, e) ∷ m) ≡ entry_in j m
      entry_in-later other = ground arith

  pub release_all_locks-IsFree :
      (key : Bytes) (l : Locks)
      → NoWaiter t (entry_in key l.table).wait_queue
      → IsFree t (entry_in key (release_all_locks t l).table)
  unfolding release_all_locks
  release_all_locks-IsFree key l n =
      let ks = keys_to_process t l.table in
      erase_keys-P (IsFree t) t keeps (λ e f u. fresh-IsFree t) key (process_keys t ks l).1
        (process_keys t ks l).0.table (process_keys-unused t ks l)
        (process_keys-IsFree key ks l n
          (keys_to_process-Handled key l l.table (λ h. record { no_holder = h; no_waiter = n })))

-- A transaction that holds nothing of an entry has no lock on the key.
pub has_lock-IsFree :
    (t : ℕ) (key : Bytes) (l : Locks)
    → IsFree t (entry_in key l.table)
    → has_lock t key l ≡ LockMode.none
has_lock-IsFree t key l f = ground (arith, has_lock-entry_in t key l, f.no_holder)
