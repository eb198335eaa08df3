-- ===== src/Locks/Holds.antt =====
-- A transaction keeps what it holds until it releases it itself, whatever the others do.
use concurrent_transactional.Prelude.{
  ℕ, Bytes, ◌==◌, Bool, true, false, ◌&&◌, ◌||◌, List, [], ◌∷◌, is_empty, length, ◌≡◌, refl, arith,
  if_both, Bool-cases, inl, inr, subst, sym,
}
use concurrent_transactional.Types.{LockMode, is_shared, is_exclusive}
use concurrent_transactional.Locks.Entry.{
  Cells, Waiter, LockEntry, Attempt, fresh, contains, add, remove, is_compatible, grant_mode,
  upgrade, request_entry, drop_waiters, release_entry, is_abandoned,
}
use concurrent_transactional.Locks.{Locks, entry_in, unused, request, finish_wait}
use concurrent_transactional.Locks.Table.{release_lock-P, release_all_locks-P}
use concurrent_transactional.Locks.History.{
  Event, asks, wakes, releases, releases_all, step, at_insert,
}

-- The transaction is a holder, and the entry is exclusive if the mode is.
pub record Holds (t : ℕ) (mode : LockMode) (e : LockEntry) : Type 0 where
  pub holder : contains t e.holders ≡ true
  pub strong : is_exclusive mode ≡ true → is_exclusive e.current_mode ≡ true

contains-add : (t u : ℕ) (xs : List ℕ) → contains t xs ≡ true → contains t (add u xs) ≡ true
unfolding contains add
contains-add t u [] h = ground arith
contains-add t u (x ∷ xs) h = ground (arith, contains-add t u xs)

contains-add_self : (t : ℕ) (xs : List ℕ) → contains t (add t xs) ≡ true
unfolding contains add
contains-add_self t [] = ground arith
contains-add_self t (x ∷ xs) = ground (arith, contains-add_self t xs)

pub contains-remove :
    (t u : ℕ) (xs : List ℕ)
    → (u == t) ≡ false
    → contains t xs ≡ true
    → contains t (remove u xs) ≡ true
unfolding contains remove
contains-remove t u [] n h = ground arith
contains-remove t u (x ∷ xs) n h = ground (arith, contains-remove t u xs n)

exclusive-grant_mode :
    (current mode : LockMode)
    → is_exclusive current ≡ true
    → is_exclusive (grant_mode current mode) ≡ true
unfolding grant_mode
exclusive-grant_mode LockMode.none mode h = cc
exclusive-grant_mode LockMode.shared mode h = cc
exclusive-grant_mode LockMode.exclusive LockMode.none h = refl
exclusive-grant_mode LockMode.exclusive LockMode.shared h = refl
exclusive-grant_mode LockMode.exclusive LockMode.exclusive h = refl

pub grant_mode_strong :
    (current mode : LockMode)
    → is_exclusive mode ≡ true
    → is_exclusive (grant_mode current mode) ≡ true
unfolding grant_mode
grant_mode_strong LockMode.none mode h = h
grant_mode_strong LockMode.shared mode h = rw h
grant_mode_strong LockMode.exclusive mode h = rw h

-- A further grant.
pub grant-Holds :
    (t u : ℕ) (mode current asked : LockMode) (holders : List ℕ) (q p : List Waiter)
    → Holds t mode (record { current_mode = current; holders = holders; wait_queue = q })
    → Holds t mode (record {
      current_mode = grant_mode current asked;
      holders = add u holders;
      wait_queue = p;
    })
grant-Holds t u mode current asked holders q p h = record {
  holder = contains-add t u holders h.holder;
  strong = λ x. exclusive-grant_mode current asked (h.strong x);
}

-- The grant to the transaction itself.
pub grant_self-Holds :
    (t : ℕ) (mode current : LockMode) (holders : List ℕ) (p : List Waiter)
    → Holds t mode
        (record { current_mode = grant_mode current mode; holders = add t holders; wait_queue = p })
grant_self-Holds t mode current holders p = record {
  holder = contains-add_self t holders;
  strong = λ x. grant_mode_strong current mode x;
}

upgrade-Holds :
    (t u : ℕ) (mode asked : LockMode) (cell : ℕ) (e : LockEntry) (q : List Waiter)
    → Holds t mode e
    → Holds t mode (upgrade u asked cell e q).0
unfolding upgrade
upgrade-Holds t u mode asked cell e [] h =
    if_both (λ (x : LockEntry × Attempt). Holds t mode x.0) (length e.holders == 1) _ _
      (λ b. record { holder = h.holder; strong = λ x. refl })
      (λ b. record { holder = h.holder; strong = h.strong })
upgrade-Holds t u mode asked cell e (w ∷ q) h =
    if_both (λ (x : LockEntry × Attempt). Holds t mode x.0)
      ((length e.holders == 1) && (w.txn_id == u)) _ _
      (λ b. record { holder = h.holder; strong = λ x. refl })
      (λ b. record { holder = h.holder; strong = h.strong })

request_entry-Holds :
    (t u : ℕ) (mode asked : LockMode) (cell : ℕ) (e : LockEntry)
    → Holds t mode e
    → Holds t mode (request_entry u asked cell e).0
unfolding request_entry
request_entry-Holds t u mode asked cell e h =
    let P : LockEntry × Attempt → Type 0 = λ x. Holds t mode x.0 in
    if_both P (contains u e.holders) _ _
      (λ a.
        if_both P (is_exclusive e.current_mode || is_shared asked) _ _ (λ b. h)
          (λ b. upgrade-Holds t u mode asked cell e e.wait_queue h))
      (λ a.
        if_both P (is_compatible e.current_mode asked && is_empty e.wait_queue) _ _
          (λ b.
            grant-Holds t u mode e.current_mode asked e.holders e.wait_queue e.wait_queue
              (record { holder = h.holder; strong = h.strong }))
          (λ b. record { holder = h.holder; strong = h.strong }))

pub not_empty : (t : ℕ) (xs : List ℕ) → is_empty xs ≡ true → contains t xs ≡ true → ⊥
unfolding contains
not_empty t [] e h = cc
not_empty t (x ∷ xs) e h = cc

pub release_entry-Holds :
    (t u : ℕ) (mode : LockMode) (e : LockEntry) (flags : Cells)
    → (u == t) ≡ false
    → Holds t mode e
    → Holds t mode (release_entry u e flags).entry
unfolding release_entry
release_entry-Holds t u mode e flags n h =
    let left = contains-remove t u e.holders n h.holder in
    elim (Bool-cases (is_empty (remove u e.holders))) [
      | inl b ↦ absurd (not_empty t (remove u e.holders) b left)
      | inr b ↦ rw b (record { holder = left; strong = h.strong })
    ]

-- The event leaves the locks of the transaction alone.
abbrev pub Spares : ℕ → Event → Type 0
Spares t (asks u key mode) = Unit
Spares t (wakes u key cell) = Unit
Spares t (releases u key) = (u == t) ≡ false
Spares t (releases_all u) = (u == t) ≡ false

-- An unused entry has no holder.
pub spent :
    (t : ℕ) (mode : LockMode) (e : LockEntry)
    → Holds t mode e
    → unused e ≡ true
    → Holds t mode fresh
spent t mode e h u = absurd (not_empty t e.holders (ground (arith, u)) h.holder)

-- What a transaction holds it still holds after an event that spares it.
pub step-Holds :
    (t : ℕ) (mode : LockMode) (k : Bytes) (l : Locks) (e : Event)
    → Spares t e
    → Holds t mode (entry_in k l.table)
    → Holds t mode (entry_in k (step l e).table)
unfolding step request finish_wait drop_waiters
step-Holds t mode k l (asks u key asked) s h =
    at_insert (Holds t mode) k key _ l
      (λ same.
        request_entry-Holds t u mode asked l.next_cell (entry_in key l.table)
          (subst (λ i. Holds t mode (entry_in i l.table)) (sym same) h))
      h
step-Holds t mode k l (wakes u key cell) s h =
    if_both (λ (x : Locks × Bool). Holds t mode (entry_in k x.0.table))
      (is_abandoned (l.flags cell)) _ _
      (λ b.
        at_insert (Holds t mode) k key _ l
          (λ same.
            dropped t u mode (entry_in key l.table)
              (subst (λ i. Holds t mode (entry_in i l.table)) (sym same) h))
          h)
      (λ b. h)
  where
    dropped :
        (t u : ℕ) (mode : LockMode) (e : LockEntry)
        → Holds t mode e
        → Holds t mode (drop_waiters u e)
    dropped t u mode e h = record { holder = h.holder; strong = h.strong }
step-Holds t mode k l (releases u key) s h =
    release_lock-P (Holds t mode) u (λ e f. release_entry-Holds t u mode e f s) (spent t mode) k key
      l h
step-Holds t mode k l (releases_all u) s h =
    release_all_locks-P (Holds t mode) u (λ e f. release_entry-Holds t u mode e f s) (spent t mode)
      k l h
