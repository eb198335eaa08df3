-- ===== src/Locks/Tickets/Served.antt =====
-- What the service of a queue does to the flags of one cell.
use concurrent_transactional.Prelude.{
  ℕ, ◌==◌, true, false, List, [], ◌∷◌, All, is_empty, ◌≡◌, refl, arith, if_both, Bool-cases, inl,
  inr, ◌∙◌,
}
use concurrent_transactional.Types.{LockMode}
use concurrent_transactional.Locks.Entry.{
  Cells, Waiter, LockEntry, Served, Released, add, remove, is_compatible, grant_mode, set_granted,
  serve, process_waiters, release_entry,
}
use concurrent_transactional.Locks.Holds.{
  Holds, grant-Holds, grant_self-Holds, not_empty, contains-remove,
}

-- A waiter with the cell is the transaction's, with its mode.
abbrev pub Own : ℕ → LockMode → ℕ → Waiter → Type 0
Own t mode c w = (w.cell == c) ≡ true → (w.txn_id ≡ t) × (w.requested_mode ≡ mode)

abbrev Won : ℕ → LockMode → ℕ → Cells → LockEntry → Type 0
Won t mode c flags e = (flags c).granted ≡ true → Holds t mode e

granted_now :
    (t : ℕ) (mode : LockMode) (c : ℕ) (current : LockMode) (holders : List ℕ) (w : Waiter)
    (q p : List Waiter) (flags : Cells)
    → Own t mode c w
    → Won t mode c flags (record { current_mode = current; holders = holders; wait_queue = p })
    → Won t mode c (set_granted w.cell flags) (record {
      current_mode = grant_mode current w.requested_mode;
      holders = add w.txn_id holders;
      wait_queue = q;
    })
unfolding set_granted
granted_now t mode c current holders w q p flags own won = elim (Bool-cases (c == w.cell)) [
  | inr d ↦ rw d (λ g. grant-Holds t w.txn_id mode current w.requested_mode holders p q (won g))
  | inl s ↦ λ g.
      let (a, b) = own (ground (arith, s)) in rw (a, b) (grant_self-Holds t mode current holders q)
]

serve-Won :
    (t : ℕ) (mode : LockMode) (c : ℕ) (current : LockMode) (holders : List ℕ) (q p : List Waiter)
    (flags : Cells)
    → All (Own t mode c) q
    → Won t mode c flags (record { current_mode = current; holders = holders; wait_queue = p })
    → Won t mode c (serve current holders q flags).flags (serve current holders q flags).entry
unfolding serve
serve-Won t mode c current holders [] p flags a won =
    λ g. record { holder = (won g).holder; strong = (won g).strong }
serve-Won t mode c current holders (w ∷ q) p flags (own, a) won =
    if_both (λ (s : Served). Won t mode c s.flags s.entry) (is_compatible current w.requested_mode)
      _ _
      (λ b.
        serve-Won t mode c (grant_mode current w.requested_mode) (add w.txn_id holders) q q
          (set_granted w.cell flags) a (granted_now t mode c current holders w q p flags own won))
      (λ b g. record { holder = (won g).holder; strong = (won g).strong })

pub release_entry-Won :
    (t : ℕ) (mode : LockMode) (c u : ℕ) (e : LockEntry) (flags : Cells)
    → (u == t) ≡ false
    → All (Own t mode c) e.wait_queue
    → Won t mode c flags e
    → Won t mode c (release_entry u e flags).flags (release_entry u e flags).entry
unfolding release_entry process_waiters
release_entry-Won t mode c u e flags n a won =
    if_both (λ (r : Released). Won t mode c r.flags r.entry) (is_empty (remove u e.holders)) _ _
      (λ b.
        serve-Won t mode c LockMode.none (remove u e.holders) e.wait_queue e.wait_queue flags a
          (λ g.
            absurd (
              not_empty t (remove u e.holders) b (contains-remove t u e.holders n (won g).holder))))
      (λ b g. record {
        holder = contains-remove t u e.holders n (won g).holder;
        strong = (won g).strong;
      })

serve-flags :
    (c : ℕ) (mode : LockMode) (holders : List ℕ) (q : List Waiter) (flags : Cells)
    → All (λ w. (w.cell == c) ≡ false) q
    → (serve mode holders q flags).flags c ≡ flags c
unfolding serve set_granted
serve-flags c mode holders [] flags a = refl
serve-flags c mode holders (w ∷ q) flags (d, a) =
    if_both (λ (s : Served). s.flags c ≡ flags c) (is_compatible mode w.requested_mode) _ _
      (λ b.
        serve-flags c (grant_mode mode w.requested_mode) (add w.txn_id holders) q
          (set_granted w.cell flags) a
        ∙ unchanged)
      (λ b. refl)
  where
    unchanged : set_granted w.cell flags c ≡ flags c
    unchanged = ground (arith, d)

pub release_entry-flags :
    (c u : ℕ) (e : LockEntry) (flags : Cells)
    → All (λ w. (w.cell == c) ≡ false) e.wait_queue
    → (release_entry u e flags).flags c ≡ flags c
unfolding release_entry process_waiters
release_entry-flags c u e flags a =
    if_both (λ (r : Released). r.flags c ≡ flags c) (is_empty (remove u e.holders)) _ _
      (λ b. serve-flags c LockMode.none (remove u e.holders) e.wait_queue flags a) (λ b. refl)
