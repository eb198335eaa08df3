-- ===== src/Locks/HandOver.antt =====
-- What a release does for those who wait, and what it does not do.
use concurrent_transactional.Prelude.{
  ℕ, ==_refl, Bytes, bytes_eq_refl, true, false, List, [], ◌∷◌, ◌++◌, All, is_empty, ◌≡◌, refl,
  arith, Bool-cases, inl, inr, none, some, ◌∙◌, Option-cases, subst, sym, ap,
}
use concurrent_transactional.Prelude.Map.{Map, lookup, bytes_order}
use concurrent_transactional.Types.{LockMode, is_none}
use concurrent_transactional.Locks.Entry.{
  LockEntry, Cells, Waiter, contains, add, remove, is_compatible, grant_mode, set_granted, serve,
  process_waiters, release_entry,
}
use concurrent_transactional.Locks.Consistent.{Asks}
use concurrent_transactional.Locks.Table.{entry_in-insert, entry_in-found}
use concurrent_transactional.Locks.Exclusion.{has_lock-entry_in}
use concurrent_transactional.Locks.{Locks, entry_in, unused, release_found, release_lock, has_lock}

contains-add_self : (t : ℕ) (hs : List ℕ) → contains t (add t hs) ≡ true
unfolding contains add
contains-add_self t [] = ground arith
contains-add_self t (x ∷ hs) = ground (arith, contains-add_self t hs)

contains-add : (t u : ℕ) (hs : List ℕ) → contains t hs ≡ true → contains t (add u hs) ≡ true
unfolding contains add
contains-add t u [] h = cc
contains-add t u (x ∷ hs) h = ground (arith, contains-add t u hs)

-- Granting others on the way takes no holder and no granted flag away.
serve-holders :
    (t : ℕ) (m : LockMode) (hs : List ℕ) (q : List Waiter) (f : Cells)
    → contains t hs ≡ true
    → contains t (serve m hs q f).entry.holders ≡ true
unfolding serve
serve-holders t m hs [] f h = h
serve-holders t m hs (w ∷ q) f h = ground (
  arith,
  serve-holders t (grant_mode m w.requested_mode) (add w.txn_id hs) q (set_granted w.cell f),
  contains-add t w.txn_id hs,
)

serve-granted :
    (c : ℕ) (m : LockMode) (hs : List ℕ) (q : List Waiter) (f : Cells)
    → (f c).granted ≡ true
    → ((serve m hs q f).flags c).granted ≡ true
unfolding serve
serve-granted c m hs [] f h = h
serve-granted c m hs (w ∷ q) f h = ground (
  arith,
  serve-granted c (grant_mode m w.requested_mode) (add w.txn_id hs) q (set_granted w.cell f),
  set_granted_mono,
)
  where
    set_granted_mono : (set_granted w.cell f c).granted ≡ true
    set_granted_mono = unfold set_granted in ground arith

same_mode :
    (m asked : LockMode)
    → is_none m ≡ false
    → is_none asked ≡ false
    → is_compatible m asked ≡ true
    → grant_mode m asked ≡ m
unfolding is_compatible grant_mode
same_mode LockMode.none asked h a c = cc
same_mode LockMode.shared LockMode.none h a c = cc
same_mode LockMode.shared LockMode.shared h a c = refl
same_mode LockMode.shared LockMode.exclusive h a c = cc
same_mode LockMode.exclusive LockMode.none h a c = cc
same_mode LockMode.exclusive LockMode.shared h a c = cc
same_mode LockMode.exclusive LockMode.exclusive h a c = cc

-- Once a lock is held, serving its queue does not change its mode.
serve-mode :
    (m : LockMode) (hs : List ℕ) (q : List Waiter) (f : Cells)
    → is_none m ≡ false
    → Asks q
    → (serve m hs q f).entry.current_mode ≡ m
unfolding serve
serve-mode m hs [] f h a = refl
serve-mode m hs (w ∷ q) f h a = elim (Bool-cases (is_compatible m w.requested_mode)) [
  | inr c ↦ rw c
  | inl c ↦
      let same = same_mode m w.requested_mode h a.0 c in
      rw (c, same) (serve-mode m (add w.txn_id hs) q (set_granted w.cell f) h a.1)
]

-- The waiters that stay: none, or those behind one that does not fit the mode.
abbrev pub IsStopped : LockMode → List Waiter → Type 0
IsStopped m [] = Unit
IsStopped m (w ∷ q) = is_compatible m w.requested_mode ≡ false

-- The queue is served in order: a part of it at its front, whose waiters all hold the lock and are
-- told so, and the rest is left as it was.
pub record IsInOrder (q : List Waiter) (e : LockEntry) (flags : Cells) : Type 0 where
  pub front : List Waiter
  pub divided : q ≡ front ++ e.wait_queue
  pub holding :
      All (λ u. (contains u.txn_id e.holders ≡ true) × ((flags u.cell).granted ≡ true)) front
  pub stopped : IsStopped e.current_mode e.wait_queue

serve-IsInOrder :
    (m : LockMode) (hs : List ℕ) (q : List Waiter) (f : Cells)
    → let s = serve m hs q f in IsInOrder q s.entry s.flags
unfolding serve
serve-IsInOrder m hs [] f = record { front = []; divided = refl; holding = tt; stopped = tt }
serve-IsInOrder m hs (w ∷ q) f = elim (Bool-cases (is_compatible m w.requested_mode)) [
  | inr c ↦ rw c (record { front = []; divided = refl; holding = tt; stopped = c })
  | inl c ↦
      let mode = grant_mode m w.requested_mode in
      let flags = set_granted w.cell f in
      let rest = serve-IsInOrder mode (add w.txn_id hs) q flags in
      rw c (record {
        front = w ∷ rest.front;
        divided = ap (λ x. w ∷ x) rest.divided;
        holding = (
          (
            serve-holders w.txn_id mode (add w.txn_id hs) q flags (contains-add_self w.txn_id hs),
            serve-granted w.cell mode (add w.txn_id hs) q flags
                (unfold set_granted in ground (arith, ==_refl w.cell)),
          ),
          rest.holding,
        );
        stopped = rest.stopped;
      })
]

serve_first :
    (w : Waiter) (q : List Waiter) (f : Cells)
    → Asks (w ∷ q)
    → let s = serve LockMode.none [] (w ∷ q) f in
      (s.entry.current_mode ≡ w.requested_mode)
      × (contains w.txn_id s.entry.holders ≡ true)
      × ((s.flags w.cell).granted ≡ true)
      × IsInOrder (w ∷ q) s.entry s.flags
unfolding serve is_compatible grant_mode
serve_first w q f a = (
  serve-mode w.requested_mode (add w.txn_id []) q (set_granted w.cell f) a.0 a.1,
  serve-holders w.txn_id w.requested_mode (add w.txn_id []) q (set_granted w.cell f)
      (contains-add_self w.txn_id []),
  serve-granted w.cell w.requested_mode (add w.txn_id []) q (set_granted w.cell f)
      (unfold set_granted in ground (arith, ==_refl w.cell)),
  serve-IsInOrder LockMode.none [] (w ∷ q) f,
)

release_entry_last :
    (t : ℕ) (e : LockEntry) (f : Cells) (w : Waiter) (q : List Waiter)
    → e.wait_queue ≡ w ∷ q
    → is_empty (remove t e.holders) ≡ true
    → ((release_entry t e f).entry ≡ (serve LockMode.none [] (w ∷ q) f).entry)
      × ((release_entry t e f).flags ≡ (serve LockMode.none [] (w ∷ q) f).flags)
unfolding release_entry process_waiters
release_entry_last t e f w q eq last =
    let none_left = no_elements (remove t e.holders) last in
    (rw (none_left, eq) refl, rw (none_left, eq) refl)
  where
    no_elements : (xs : List ℕ) → is_empty xs ≡ true → xs ≡ []
    no_elements [] h = refl
    no_elements (x ∷ xs) h = cc

used_of_holder : (t : ℕ) (e : LockEntry) → contains t e.holders ≡ true → unused e ≡ false
unfolding contains
used_of_holder t e h = ground arith

-- A release that leaves an entry in use is a write of the entry.
release_lock_kept :
    (t : ℕ) (k : Bytes) (l : Locks) (e : LockEntry)
    → lookup k l.table ≡ some e
    → unused (release_entry t e l.flags).entry ≡ false
    → (entry_in k (release_lock t k l).table ≡ (release_entry t e l.flags).entry)
      × ((release_lock t k l).flags ≡ (release_entry t e l.flags).flags)
unfolding release_lock release_found
release_lock_kept t k l e found used = (
  rw (found, release_lock, used)
      (ground
        (arith, entry_in-insert k k (release_entry t e l.flags).entry l.table, bytes_eq_refl k)),
  rw (found, release_lock, used) (ground arith),
)

-- When the only holder of a key releases it and there are waiters, the first waiter gets the key in
-- the mode it asked for, and its flag is set so that its wait returns. The queue is served in order:
-- it divides into a front, each of whose waiters now holds the lock and has its flag set, and a rest,
-- which is the queue that stays, unchanged; and the rest is empty or begins with a waiter whose mode
-- does not fit that of the lock.
pub release_lock-serves_first :
    (t : ℕ) (k : Bytes) (l : Locks) (w : Waiter) (q : List Waiter)
    → Asks (entry_in k l.table).wait_queue
    → (entry_in k l.table).wait_queue ≡ w ∷ q
    → is_empty (remove t (entry_in k l.table).holders) ≡ true
    → let l' = release_lock t k l in
      (has_lock w.txn_id k l' ≡ w.requested_mode)
      × ((l'.flags w.cell).granted ≡ true)
      × IsInOrder (w ∷ q) (entry_in k l'.table) l'.flags
release_lock-serves_first t k l w q asks eq last = elim (Option-cases (lookup k l.table)) [
  | inl missing ↦ cc (entry_in_missing k l.table missing)
  | inr (e, found) ↦
      let here = entry_in-found k e l.table found in
      let served = serve_first w q l.flags (subst Asks eq asks) in
      let (same, marks) =
        release_entry_last t e l.flags w q (sym (ap (λ x. x.wait_queue) here) ∙ eq)
          (subst (λ x. is_empty (remove t x.holders) ≡ true) here last) in
      let (kept, flags) =
        release_lock_kept t k l e found
          (used_of_holder w.txn_id (release_entry t e l.flags).entry (rw same served.1)) in
      (
        ground (
          arith,
          has_lock-entry_in w.txn_id k (release_lock t k l),
          kept ∙ same,
          served.0,
          served.1,
        ),
        rw (flags, marks) served.2,
        rw (kept, same, flags, marks) served.3,
      )
]
  where
    entry_in_missing :
        (k : Bytes) (m : Map Bytes LockEntry) → lookup k m ≡ none → (entry_in k m).wait_queue ≡ []
    entry_in_missing k m h = unfold entry_in in rw (h, entry_in)
