-- ===== src/Locks/Release.antt =====
-- What the release of its locks leaves of a transaction that waits for none of them.
use concurrent_transactional.Prelude.{
  ℕ, Bytes, bytes_eq_refl, false, List, [], ◌∷◌, ◌==◌, ◌≡◌, refl, arith, Bool-cases, Option-cases,
  inl, inr, is_empty, subst, All,
}
use concurrent_transactional.Prelude.Map.{lookup, bytes_order}
use concurrent_transactional.Types.{LockMode}
use concurrent_transactional.Locks.Entry.{
  is_compatible, LockEntry, Waiter, Cells, fresh, remove, add, contains, serve, process_waiters,
  release_entry, set_granted, grant_mode,
}
use concurrent_transactional.Locks.Table.{entry_in-insert, entry_in-erase, entry_in-found}
use concurrent_transactional.Locks.{Locks, entry_in, release_found, release_lock}

-- No waiter of the queue is of the transaction.
abbrev pub NoWaiter : ℕ → List Waiter → Type 0
NoWaiter txn q = All (λ w. (w.txn_id == txn) ≡ false) q

-- The transaction neither holds the entry nor waits for it.
pub record IsFree (txn : ℕ) (e : LockEntry) : Type 0 where
  pub no_holder : contains txn e.holders ≡ false
  pub no_waiter : NoWaiter txn e.wait_queue

contains-remove : (t : ℕ) (xs : List ℕ) → contains t (remove t xs) ≡ false
unfolding contains remove
contains-remove t [] = refl
contains-remove t (x ∷ xs) = ground (arith, contains-remove t xs)

contains-add :
    (t u : ℕ) (xs : List ℕ)
    → (u == t) ≡ false
    → contains t xs ≡ false
    → contains t (add u xs) ≡ false
unfolding contains add
contains-add t u [] n h = ground arith
contains-add t u (x ∷ xs) n h = ground (arith, contains-add t u xs)

serve-IsFree :
    (t : ℕ) (mode : LockMode) (holders : List ℕ) (q : List Waiter) (flags : Cells)
    → contains t holders ≡ false
    → NoWaiter t q
    → IsFree t (serve mode holders q flags).entry
unfolding serve
serve-IsFree t mode holders [] flags h n = record { no_holder = h; no_waiter = tt }
serve-IsFree t mode holders (w ∷ q) flags h (a, n) =
    elim (Bool-cases (is_compatible mode w.requested_mode)) [
      | inl c ↦ rw c (
          serve-IsFree t (grant_mode mode w.requested_mode) (add w.txn_id holders) q
            (set_granted w.cell flags) (contains-add t w.txn_id holders a h) n)
      | inr c ↦ rw c (record { no_holder = h; no_waiter = (a, n) })
    ]

pub release_entry-IsFree :
    (t : ℕ) (e : LockEntry) (flags : Cells)
    → NoWaiter t e.wait_queue
    → IsFree t (release_entry t e flags).entry
unfolding release_entry process_waiters
release_entry-IsFree t e flags n = elim (Bool-cases (is_empty (remove t e.holders))) [
  | inl b ↦ rw b (
      serve-IsFree t LockMode.none (remove t e.holders) e.wait_queue flags
        (contains-remove t e.holders) n)
  | inr b ↦ rw b (record { no_holder = contains-remove t e.holders; no_waiter = n })
]

pub fresh-IsFree : (t : ℕ) → IsFree t fresh
unfolding contains
fresh-IsFree t = record { no_holder = refl; no_waiter = tt }

-- The release of one key, where the transaction does not wait for it.
pub release_lock-IsFree :
    (t : ℕ) (key : Bytes) (l : Locks)
    → NoWaiter t (entry_in key l.table).wait_queue
    → IsFree t (entry_in key (release_lock t key l).table)
unfolding release_lock release_found entry_in
release_lock-IsFree t key l n = elim (Option-cases (lookup key l.table)) [
  | inl e ↦ rw (e, release_lock, entry_in, e) (fresh-IsFree t)
  | inr (e, found) ↦
      let n' = subst (λ x. NoWaiter t x.wait_queue) (entry_in-found key e l.table found) n in
      elim (Bool-cases (release_found t key e l).1) [
        | inl gone ↦
            rw (found, release_lock, gone, entry_in-erase, bytes_eq_refl key) (fresh-IsFree t)
        | inr stays ↦
            rw (found, release_lock, stays, entry_in-insert, bytes_eq_refl key)
              (release_entry-IsFree t e l.flags n')
      ]
]
