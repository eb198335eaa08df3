-- ===== src/Locks/Tickets.antt =====
-- The flags of one waiter: they are raised for the waiter that has their cell and for no other, and
-- when they are raised, its transaction has the lock and keeps it.
pub mod Served
use concurrent_transactional.Prelude.{
  ℕ, ◌<◌, ◌≤◌, Bytes, bytes_eq, bytes_eq_iff, ◌==◌, Bool, true, false, List, [], ◌∷◌, All, ◌≡◌, ◌≢◌,
  refl, arith, if◌then◌else◌, if_both, Bool-cases, Option-cases, some, none, inl, inr, subst, sym,
  bytes_eq_refl,
}
use concurrent_transactional.Prelude.Map.{lookup, erase, bytes_order}
use concurrent_transactional.Types.{LockMode}
use concurrent_transactional.Locks.Entry.{Cells, Waiter, LockEntry, is_abandoned, release_entry}
use concurrent_transactional.Locks.{
  Locks, entry_in, unused, request, finish_wait, release_found, release_lock, process_keys,
  keys_to_process, erase_keys, release_all_locks,
}
use concurrent_transactional.Locks.Table.{
  entry_in-insert, entry_in-found, release_found-P, erase-P, erase_keys-P, process_keys-unused,
  gone_unused,
}
use concurrent_transactional.Locks.Holds.{Holds, Spares, step-Holds, spent, release_entry-Holds}
use concurrent_transactional.Locks.Queues.{Queued, Comes, step-Queued, release_entry-All}
use concurrent_transactional.Locks.History.{Event, asks, wakes, releases, releases_all, step}
use concurrent_transactional.Locks.Releases.{release_lock-keeps, release_all_locks-keeps}
use Served.{Own, release_entry-Won, release_entry-flags}

-- The transaction's request for the key in the mode waits on the cell, or waited there.
abbrev pub Owned : ℕ → LockMode → Bytes → ℕ → Bytes → Waiter → Type 0
Owned t mode key c k w =
    (w.cell == c) ≡ true → (w.txn_id ≡ t) × (w.requested_mode ≡ mode) × (k ≡ key)

pub record Ticket (t : ℕ) (mode : LockMode) (key : Bytes) (c : ℕ) (l : Locks) : Type 0 where
  pub below : c < l.next_cell
  pub owned : Queued (Owned t mode key c) l
  pub won : (l.flags c).granted ≡ true → Holds t mode (entry_in key l.table)

module _ (t : ℕ) (mode : LockMode) (key : Bytes) (c : ℕ) (u : ℕ) (n : (u == t) ≡ false) where
  keeps : (e : LockEntry) (f : Cells) → Holds t mode e → Holds t mode (release_entry u e f).entry
  keeps e f = release_entry-Holds t u mode e f n

  Owned-keeps :
      (k : Bytes) (e : LockEntry) (f : Cells)
      → All (Owned t mode key c k) e.wait_queue
      → All (Owned t mode key c k) (release_entry u e f).entry.wait_queue
  Owned-keeps k e f = release_entry-All (Owned t mode key c k) u e f

  owns : (k : Bytes) (q : List Waiter) → All (Owned t mode key c k) q → All (Own t mode c) q
  owns k [] h = tt
  owns k (w ∷ q) (a, h) = (λ x. ((a x).0, (a x).1), owns k q h)

  disowns :
      (k : Bytes) (q : List Waiter)
      → k ≢ key
      → All (Owned t mode key c k) q
      → All (λ w. (w.cell == c) ≡ false) q
  disowns k [] d h = tt
  disowns k (w ∷ q) d (a, h) =
      (elim (Bool-cases (w.cell == c)) [ inl x ↦ absurd (d (a x).2) | inr x ↦ x ], disowns k q d h)

  release_found-Ticket :
      (k : Bytes) (e : LockEntry) (l : Locks)
      → lookup k l.table ≡ some e
      → Ticket t mode key c l
      → Ticket t mode key c (release_found u k e l).0
  unfolding release_found
  release_found-Ticket k e l found h =
      let same = entry_in-found k e l.table found in
      let queue = subst (λ x. All (Owned t mode key c k) x.wait_queue) same (h.owned k) in
      record {
        below = h.below;
        owned = λ j.
            release_found-P (λ x. All (Owned t mode key c j) x.wait_queue) u (Owned-keeps j)
              (λ x g b. tt) j k e l found (h.owned j);
        won = elim (Bool-cases (bytes_eq k key)) [
          | inl eq ↦
              rw (entry_in-insert, eq)
                (release_entry-Won t mode c u e l.flags n (owns k e.wait_queue queue) (λ g.
                  subst (Holds t mode) same (
                    subst (λ i. Holds t mode (entry_in i l.table)) (sym ((bytes_eq_iff k key).0 eq))
                      (h.won g))))
          | inr d ↦
              rw
                (
                  entry_in-insert,
                  d,
                  release_entry-flags c u e l.flags (
                      disowns k e.wait_queue (λ eq. ground (arith, d, eq, bytes_eq_iff k key))
                        queue),
                )
                h.won
        ];
      }

  erase-Ticket :
      (k : Bytes) (l : Locks)
      → unused (entry_in k l.table) ≡ true
      → Ticket t mode key c l
      → Ticket t mode key c (record l { table = erase k l.table })
  erase-Ticket k l x h = record {
    below = h.below;
    owned = λ j.
        erase-P (λ e. All (Owned t mode key c j) e.wait_queue) u (Owned-keeps j) (λ e g b. tt) j k
          l.table x (h.owned j);
    won = λ g. erase-P (Holds t mode) u keeps (spent t mode) key k l.table x (h.won g);
  }

-- The end of a wait changes neither the flags nor the numbers.
pub finish_wait-flags :
    (u : ℕ) (k : Bytes) (c : ℕ) (l : Locks) → (finish_wait u k c l).0.flags ≡ l.flags
unfolding finish_wait
finish_wait-flags u k c l =
    if_both (λ (x : Locks × Bool). x.0.flags ≡ l.flags) (is_abandoned (l.flags c)) _ _ (λ b. refl)
      (λ b. refl)

pub finish_wait-next_cell :
    (u : ℕ) (k : Bytes) (c : ℕ) (l : Locks) → (finish_wait u k c l).0.next_cell ≡ l.next_cell
unfolding finish_wait
finish_wait-next_cell u k c l =
    if_both (λ (x : Locks × Bool). x.0.next_cell ≡ l.next_cell) (is_abandoned (l.flags c)) _ _
      (λ b. refl) (λ b. refl)

-- Every event that spares the transaction keeps its ticket.
pub step-Ticket :
    (t : ℕ) (mode : LockMode) (key : Bytes) (c : ℕ) (l : Locks) (e : Event)
    → Spares t e
    → Ticket t mode key c l
    → Ticket t mode key c (step l e)
unfolding step request
step-Ticket t mode key c l (asks u k asked) s h = record {
  below = omega (arith, h.below);
  owned =
      step-Queued (Owned t mode key c) l (asks u k asked) (λ x. absurd (ground (arith, h.below, x)))
        h.owned;
  won = λ g. step-Holds t mode key l (asks u k asked) tt (h.won g);
}
step-Ticket t mode key c l (wakes u k cell) s h = record {
  below = rw (finish_wait-next_cell u k cell l) h.below;
  owned = step-Queued (Owned t mode key c) l (wakes u k cell) tt h.owned;
  won =
      rw (finish_wait-flags u k cell l)
        (λ g. step-Holds t mode key l (wakes u k cell) tt (h.won g));
}
step-Ticket t mode key c l (releases u k) s h =
    release_lock-keeps (Ticket t mode key c) u (release_found-Ticket t mode key c u s)
      (erase-Ticket t mode key c u s) k l h
step-Ticket t mode key c l (releases_all u) s h =
    release_all_locks-keeps (Ticket t mode key c) u (release_found-Ticket t mode key c u s)
      (erase-Ticket t mode key c u s) l h
