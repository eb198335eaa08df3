-- ===== src/Locks/Queues.antt =====
-- What holds of every waiter in the lock table is kept, if it holds of those that come.
use concurrent_transactional.Prelude.{
  ℕ, Bytes, ◌==◌, Bool, ◌&&◌, ◌||◌, List, [], ◌∷◌, is_empty, length, All, All-append, if_both,
  subst, sym,
}
use concurrent_transactional.Types.{LockMode, is_shared, is_exclusive}
use concurrent_transactional.Locks.Entry.{
  Cells, Waiter, LockEntry, Attempt, Served, Released, contains, add, remove, is_compatible,
  grant_mode, upgrade, request_entry, without_txn, drop_waiters, set_granted, serve,
  process_waiters, release_entry, is_abandoned,
}
use concurrent_transactional.Locks.{Locks, entry_in, request, finish_wait}
use concurrent_transactional.Locks.Table.{release_lock-P, release_all_locks-P}
use concurrent_transactional.Locks.History.{
  Event, asks, wakes, releases, releases_all, step, at_insert,
}

module _ (Q : Waiter → Type 0) where
  pub serve-All :
      (mode : LockMode) (holders : List ℕ) (q : List Waiter) (flags : Cells)
      → All Q q
      → All Q (serve mode holders q flags).entry.wait_queue
  unfolding serve
  serve-All mode holders [] flags h = tt
  serve-All mode holders (w ∷ q) flags (a, h) =
      if_both (λ (s : Served). All Q s.entry.wait_queue) (is_compatible mode w.requested_mode) _ _
        (λ b.
          serve-All (grant_mode mode w.requested_mode) (add w.txn_id holders) q
            (set_granted w.cell flags) h)
        (λ b. (a, h))

  pub release_entry-All :
      (u : ℕ) (e : LockEntry) (flags : Cells)
      → All Q e.wait_queue
      → All Q (release_entry u e flags).entry.wait_queue
  unfolding release_entry process_waiters
  release_entry-All u e flags h =
      if_both (λ (r : Released). All Q r.entry.wait_queue) (is_empty (remove u e.holders)) _ _
        (λ b. serve-All LockMode.none (remove u e.holders) e.wait_queue flags h) (λ b. h)

  without_txn-All : (u : ℕ) (q : List Waiter) → All Q q → All Q (without_txn u q)
  unfolding without_txn
  without_txn-All u [] h = tt
  without_txn-All u (w ∷ q) (a, h) =
      if_both (All Q) (w.txn_id == u) _ _ (λ b. without_txn-All u q h)
        (λ b. (a, without_txn-All u q h))

  drop_waiters-All :
      (u : ℕ) (e : LockEntry) → All Q e.wait_queue → All Q (drop_waiters u e).wait_queue
  unfolding drop_waiters
  drop_waiters-All u e h = without_txn-All u e.wait_queue h

  abbrev asker : ℕ → LockMode → ℕ → Waiter
  asker u mode cell = record { txn_id = u; requested_mode = mode; cell = cell }

  upgrade-All :
      (u : ℕ) (asked : LockMode) (cell : ℕ) (e : LockEntry) (q : List Waiter)
      → All Q q
      → All Q e.wait_queue
      → Q (asker u asked cell)
      → All Q (upgrade u asked cell e q).0.wait_queue
  unfolding upgrade
  upgrade-All u asked cell e [] g h a =
      if_both (λ (x : LockEntry × Attempt). All Q x.0.wait_queue) (length e.holders == 1) _ _
        (λ b. h) (λ b. All-append Q e.wait_queue (asker u asked cell ∷ []) h (a, tt))
  upgrade-All u asked cell e (w ∷ q) g h a =
      if_both (λ (x : LockEntry × Attempt). All Q x.0.wait_queue)
        ((length e.holders == 1) && (w.txn_id == u)) _ _ (λ b. g.1)
        (λ b. All-append Q e.wait_queue (asker u asked cell ∷ []) h (a, tt))

  request_entry-All :
      (u : ℕ) (asked : LockMode) (cell : ℕ) (e : LockEntry)
      → All Q e.wait_queue
      → Q (asker u asked cell)
      → All Q (request_entry u asked cell e).0.wait_queue
  unfolding request_entry
  request_entry-All u asked cell e h a =
      let P : LockEntry × Attempt → Type 0 = λ x. All Q x.0.wait_queue in
      if_both P (contains u e.holders) _ _
        (λ c.
          if_both P (is_exclusive e.current_mode || is_shared asked) _ _ (λ b. h)
            (λ b. upgrade-All u asked cell e e.wait_queue h h a))
        (λ c.
          if_both P (is_compatible e.current_mode asked && is_empty e.wait_queue) _ _ (λ b. h)
            (λ b. All-append Q e.wait_queue (asker u asked cell ∷ []) h (a, tt)))

-- A property of the waiters for each key.
abbrev pub Queued : (Bytes → Waiter → Type 0) → Locks → Type 0
Queued Q l = (k : Bytes) → All (Q k) (entry_in k l.table).wait_queue

-- It holds of the waiter that a request may make.
abbrev pub Comes : (Bytes → Waiter → Type 0) → Locks → Event → Type 0
Comes Q l (asks u key mode) =
    Q key (record { txn_id = u; requested_mode = mode; cell = l.next_cell })
Comes Q l (wakes u key cell) = Unit
Comes Q l (releases u key) = Unit
Comes Q l (releases_all u) = Unit

pub step-Queued :
    (Q : Bytes → Waiter → Type 0) (l : Locks) (e : Event)
    → Comes Q l e
    → Queued Q l
    → Queued Q (step l e)
unfolding step request finish_wait
step-Queued Q l (asks u key asked) c h k =
    at_insert (λ e. All (Q k) e.wait_queue) k key _ l
      (λ same.
        request_entry-All (Q k) u asked l.next_cell (entry_in key l.table)
          (subst (λ i. All (Q k) (entry_in i l.table).wait_queue) (sym same) (h k))
          (subst (λ i. Q i (record { txn_id = u; requested_mode = asked; cell = l.next_cell })) same
            c))
      (h k)
step-Queued Q l (wakes u key cell) c h k =
    if_both (λ (x : Locks × Bool). All (Q k) (entry_in k x.0.table).wait_queue)
      (is_abandoned (l.flags cell)) _ _
      (λ b.
        at_insert (λ e. All (Q k) e.wait_queue) k key _ l
          (λ same.
            drop_waiters-All (Q k) u (entry_in key l.table)
              (subst (λ i. All (Q k) (entry_in i l.table).wait_queue) (sym same) (h k)))
          (h k))
      (λ b. h k)
step-Queued Q l (releases u key) c h k =
    release_lock-P (λ e. All (Q k) e.wait_queue) u (λ e f. release_entry-All (Q k) u e f)
      (λ e g b. tt) k key l (h k)
step-Queued Q l (releases_all u) c h k =
    release_all_locks-P (λ e. All (Q k) e.wait_queue) u (λ e f. release_entry-All (Q k) u e f)
      (λ e g b. tt) k l (h k)
