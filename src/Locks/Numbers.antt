-- ===== src/Locks/Numbers.antt =====
-- Every waiter has a cell of its own number, and a cell that is not given out yet is not raised.
use concurrent_transactional.Prelude.{
  ℕ, ◌+◌, ◌<◌, ◌≤◌, Bytes, ◌==◌, true, false, List, [], ◌∷◌, All, ◌≡◌, refl, arith, some, subst,
}
use concurrent_transactional.Prelude.Map.{lookup, erase, bytes_order}
use concurrent_transactional.Types.{LockMode}
use concurrent_transactional.Locks.Entry.{Waiter, LockEntry}
use concurrent_transactional.Locks.{Locks, initial, entry_in, unused, request, release_found}
use concurrent_transactional.Locks.Table.{entry_in-found, release_found-P, erase-P}
use concurrent_transactional.Locks.Queues.{Queued, step-Queued, release_entry-All}
use concurrent_transactional.Locks.Releases.{release_lock-keeps, release_all_locks-keeps}
use concurrent_transactional.Locks.Tickets.Served.{release_entry-flags}
use concurrent_transactional.Locks.Tickets.{Ticket, Owned, finish_wait-flags, finish_wait-next_cell}
use concurrent_transactional.Locks.History.{Event, asks, wakes, releases, releases_all, step}

pub record IsNumbered (l : Locks) : Type 0 where
  pub cells : Queued (λ k w. w.cell < l.next_cell) l
  pub unset : (c : ℕ) → l.next_cell ≤ c → (l.flags c).granted ≡ false

pub initial-IsNumbered : IsNumbered initial
unfolding initial entry_in lookup
initial-IsNumbered = record { cells = λ k. tt; unset = λ c h. refl }

module _ (u : ℕ) where
  other_cells :
      (n c : ℕ) (q : List Waiter)
      → n ≤ c
      → All (λ w. w.cell < n) q
      → All (λ w. (w.cell == c) ≡ false) q
  other_cells n c [] h a = tt
  other_cells n c (w ∷ q) h (b, a) = (ground (arith, h, b), other_cells n c q h a)

  release_found-IsNumbered :
      (k : Bytes) (e : LockEntry) (l : Locks)
      → lookup k l.table ≡ some e
      → IsNumbered l
      → IsNumbered (release_found u k e l).0
  unfolding release_found
  release_found-IsNumbered k e l found h = record {
    cells = λ j.
        release_found-P (λ x. All (λ w. w.cell < l.next_cell) x.wait_queue) u
          (λ x f. release_entry-All (λ w. w.cell < l.next_cell) u x f) (λ x g b. tt) j k e l found
          (h.cells j);
    unset = λ c less.
        rw
          (release_entry-flags c u e l.flags (
            other_cells l.next_cell c e.wait_queue less (
              subst (λ x. All (λ w. w.cell < l.next_cell) x.wait_queue)
                (entry_in-found k e l.table found) (h.cells k))))
          (h.unset c less);
  }

  erase-IsNumbered :
      (k : Bytes) (l : Locks)
      → unused (entry_in k l.table) ≡ true
      → IsNumbered l
      → IsNumbered (record l { table = erase k l.table })
  erase-IsNumbered k l x h = record {
    cells = λ j.
        erase-P (λ e. All (λ w. w.cell < l.next_cell) e.wait_queue) u
          (λ e f. release_entry-All (λ w. w.cell < l.next_cell) u e f) (λ e g b. tt) j k l.table x
          (h.cells j);
    unset = h.unset;
  }

weaken : (n : ℕ) (q : List Waiter) → All (λ w. w.cell < n) q → All (λ w. w.cell < n + 1) q
weaken n [] a = tt
weaken n (w ∷ q) (b, a) = (omega (arith, b), weaken n q a)

pub step-IsNumbered : (l : Locks) (e : Event) → IsNumbered l → IsNumbered (step l e)
unfolding step request
step-IsNumbered l (asks u k asked) h = record {
  cells =
      step-Queued (λ j w. w.cell < l.next_cell + 1) l (asks u k asked) (omega arith)
        (λ j. weaken l.next_cell (entry_in j l.table).wait_queue (h.cells j));
  unset = λ c less. h.unset c (omega (arith, less));
}
step-IsNumbered l (wakes u k cell) h = record {
  cells =
      rw (finish_wait-next_cell u k cell l)
        (step-Queued (λ j w. w.cell < l.next_cell) l (wakes u k cell) tt h.cells);
  unset = rw (finish_wait-flags u k cell l, finish_wait-next_cell u k cell l) h.unset;
}
step-IsNumbered l (releases u k) h =
    release_lock-keeps IsNumbered u (release_found-IsNumbered u) (erase-IsNumbered u) k l h
step-IsNumbered l (releases_all u) h =
    release_all_locks-keeps IsNumbered u (release_found-IsNumbered u) (erase-IsNumbered u) l h

-- The ticket of a request that has to wait.
pub request-Ticket :
    (t : ℕ) (mode : LockMode) (key : Bytes) (l : Locks)
    → IsNumbered l
    → Ticket t mode key l.next_cell (request t key mode l).0
unfolding request step
request-Ticket t mode key l h = record {
  below = omega arith;
  owned =
      step-Queued (Owned t mode key l.next_cell) l (asks t key mode) (λ x. (refl, refl, refl))
        (λ k. older k (entry_in k l.table).wait_queue (h.cells k));
  won = λ g. cc (h.unset l.next_cell (omega arith), g);
}
  where
    older :
        (k : Bytes) (q : List Waiter)
        → All (λ w. w.cell < l.next_cell) q
        → All (Owned t mode key l.next_cell k) q
    older k [] a = tt
    older k (w ∷ q) (b, a) = (λ x. absurd (ground (arith, b, x)), older k q a)
