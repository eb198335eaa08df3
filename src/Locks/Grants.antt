-- ===== src/Locks/Grants.antt =====
-- A request that is granted at once has given the lock, and so has a wait that ends well.
use concurrent_transactional.Prelude.{
  ℕ, Bytes, bytes_eq_refl, ◌==◌, Bool, true, false, ◌&&◌, ◌||◌, List, [], ◌∷◌, is_empty, length,
  ◌≡◌, refl, arith, if_both,
}
use concurrent_transactional.Types.{LockMode, is_shared, is_exclusive}
use concurrent_transactional.Locks.Entry.{
  Waiter, LockEntry, Attempt, contains, is_compatible, upgrade, request_entry, is_abandoned,
}
use concurrent_transactional.Locks.{Locks, entry_in, request, finish_wait}
use concurrent_transactional.Locks.Table.{entry_in-insert}
use concurrent_transactional.Locks.Holds.{Holds, grant_self-Holds}
use concurrent_transactional.Locks.Tickets.{Ticket}

abbrev Given : ℕ → LockMode → LockEntry × Attempt → Type 0
Given t mode x = x.1 ≡ Attempt.granted → Holds t mode x.0

waits_on : Attempt.waiting ≡ Attempt.granted → ⊥
waits_on e = cc e

upgrade-Given :
    (t : ℕ) (mode : LockMode) (cell : ℕ) (e : LockEntry) (q : List Waiter)
    → contains t e.holders ≡ true
    → Given t mode (upgrade t mode cell e q)
unfolding upgrade
upgrade-Given t mode cell e [] h =
    if_both (Given t mode) (length e.holders == 1) _ _
      (λ b g. record { holder = h; strong = λ x. refl }) (λ b g. absurd (waits_on g))
upgrade-Given t mode cell e (w ∷ q) h =
    if_both (Given t mode) ((length e.holders == 1) && (w.txn_id == t)) _ _
      (λ b g. record { holder = h; strong = λ x. refl }) (λ b g. absurd (waits_on g))

kept_strong :
    (current mode : LockMode)
    → (is_exclusive current || is_shared mode) ≡ true
    → is_exclusive mode ≡ true
    → is_exclusive current ≡ true
kept_strong LockMode.none LockMode.exclusive b x = b
kept_strong LockMode.shared LockMode.exclusive b x = b
kept_strong LockMode.exclusive mode b x = refl
kept_strong LockMode.none LockMode.none b x = b
kept_strong LockMode.none LockMode.shared b x = x
kept_strong LockMode.shared LockMode.none b x = b
kept_strong LockMode.shared LockMode.shared b x = x

request_entry-Given :
    (t : ℕ) (mode : LockMode) (cell : ℕ) (e : LockEntry)
    → Given t mode (request_entry t mode cell e)
unfolding request_entry
request_entry-Given t mode cell e =
    if_both (Given t mode) (contains t e.holders) _ _
      (λ a.
        if_both (Given t mode) (is_exclusive e.current_mode || is_shared mode) _ _
          (λ b g. record { holder = a; strong = kept_strong e.current_mode mode b })
          (λ b. upgrade-Given t mode cell e e.wait_queue a))
      (λ a.
        if_both (Given t mode) (is_compatible e.current_mode mode && is_empty e.wait_queue) _ _
          (λ b g. grant_self-Holds t mode e.current_mode e.holders e.wait_queue)
          (λ b g. absurd (waits_on g)))

pub request-granted :
    (t : ℕ) (mode : LockMode) (key : Bytes) (l : Locks)
    → (request t key mode l).1 ≡ Attempt.granted
    → Holds t mode (entry_in key (request t key mode l).0.table)
unfolding request
request-granted t mode key l g =
    rw (entry_in-insert, bytes_eq_refl key)
      (request_entry-Given t mode l.next_cell (entry_in key l.table) g)

pub finish_wait-granted :
    (t : ℕ) (mode : LockMode) (key : Bytes) (c : ℕ) (l : Locks)
    → Ticket t mode key c l
    → (finish_wait t key c l).1 ≡ true
    → Holds t mode (entry_in key (finish_wait t key c l).0.table)
unfolding finish_wait is_abandoned
finish_wait-granted t mode key c l h =
    if_both (λ (x : Locks × Bool). x.1 ≡ true → Holds t mode (entry_in key x.0.table))
      (is_abandoned (l.flags c)) _ _ (λ b g. absurd (cc g)) (λ b g. h.won (raised b))
  where
    raised : is_abandoned (l.flags c) ≡ false → (l.flags c).granted ≡ true
    raised b = ground (arith, b)
