-- ===== src/Locks/Upgrade.antt =====
-- A holder that waits for an upgrade: nothing that the other transactions do grants it.
use concurrent_transactional.Prelude.{
  ℕ, ◌==◌, Bytes, Bool, true, false, ◌&&◌, ◌||◌, List, [], ◌∷◌, ◌++◌, length, is_empty, All, ◌≡◌,
  ◌≢◌, refl, arith, Bool-cases, inl, inr, subst, sym,
}
use concurrent_transactional.Prelude.Map.{bytes_order}
use concurrent_transactional.Types.{LockMode, is_exclusive, is_shared}
use concurrent_transactional.Locks.Entry.{
  LockEntry, Cells, Waiter, contains, add, remove, fresh, is_compatible, request_entry, upgrade,
  is_abandoned, without_txn, drop_waiters, release_entry,
}
use concurrent_transactional.Locks.Table.{release_lock-P, release_all_locks-P}
use concurrent_transactional.Locks.{Locks, entry_in, unused, request, finish_wait}
use concurrent_transactional.Locks.History.{
  Event, asks, wakes, releases, releases_all, step, run, at_insert,
}

-- Some waiter of the queue belongs to `t`.
unfoldable pub has_waiter : ℕ → List Waiter → Bool
has_waiter t [] = false
has_waiter t (w ∷ q) = (w.txn_id == t) || has_waiter t q

-- `t` holds the key and waits for it at the same time: an upgrade in progress.
pub record IsUpgrading (t : ℕ) (e : LockEntry) : Type 0 where
  pub holds : contains t e.holders ≡ true
  pub waits : has_waiter t e.wait_queue ≡ true

abbrev pub actor : Event → ℕ
actor (asks txn key mode) = txn
actor (wakes txn key cell) = txn
actor (releases txn key) = txn
actor (releases_all txn) = txn

contains-add : (t u : ℕ) (hs : List ℕ) → contains t hs ≡ true → contains t (add u hs) ≡ true
unfolding contains add
contains-add t u [] h = cc
contains-add t u (x ∷ hs) h = ground (arith, contains-add t u hs)

contains-remove :
    (t u : ℕ) (hs : List ℕ) → u ≢ t → contains t hs ≡ true → contains t (remove u hs) ≡ true
unfolding contains remove
contains-remove t u [] d h = cc
contains-remove t u (x ∷ hs) d h = ground (arith, contains-remove t u hs d)

nonempty_of_contains : (t : ℕ) (hs : List ℕ) → contains t hs ≡ true → is_empty hs ≡ false
unfolding contains
nonempty_of_contains t [] h = cc
nonempty_of_contains t (x ∷ hs) h = refl

has_waiter-append :
    (t : ℕ) (q r : List Waiter) → has_waiter t q ≡ true → has_waiter t (q ++ r) ≡ true
unfolding has_waiter
has_waiter-append t [] r h = cc
has_waiter-append t (w ∷ q) r h = ground (arith, has_waiter-append t q r)

has_waiter-without_txn :
    (t u : ℕ) (q : List Waiter)
    → u ≢ t
    → has_waiter t q ≡ true
    → has_waiter t (without_txn u q) ≡ true
unfolding has_waiter without_txn
has_waiter-without_txn t u [] d h = cc
has_waiter-without_txn t u (w ∷ q) d h = ground (arith, has_waiter-without_txn t u q d)

module _ (t u : ℕ) (other : u ≢ t) where
  enqueue-IsUpgrading :
      (w : Waiter) (e : LockEntry)
      → IsUpgrading t e
      → IsUpgrading t (record e { wait_queue = e.wait_queue ++ w ∷ [] })
  enqueue-IsUpgrading w e v = record {
    holds = v.holds;
    waits = has_waiter-append t e.wait_queue (w ∷ []) v.waits;
  }

  upgrade-IsUpgrading :
      (mode : LockMode) (cell : ℕ) (e : LockEntry) (q : List Waiter)
      → e.wait_queue ≡ q
      → IsUpgrading t e
      → IsUpgrading t (upgrade u mode cell e q).0
  unfolding upgrade
  upgrade-IsUpgrading mode cell e [] p v = elim (Bool-cases (length e.holders == 1)) [
    | inl h ↦ rw h (record { holds = v.holds; waits = v.waits })
    | inr h ↦ rw h (enqueue-IsUpgrading _ e v)
  ]
  upgrade-IsUpgrading mode cell e (w ∷ q) p v =
      elim (Bool-cases ((length e.holders == 1) && (w.txn_id == u))) [
        | inl h ↦ rw h (record { holds = v.holds; waits = later h })
        | inr h ↦ rw h (enqueue-IsUpgrading _ e v)
      ]
    where
      queued : has_waiter t (w ∷ q) ≡ true
      queued = subst (λ r. has_waiter t r ≡ true) p v.waits

      later : ((length e.holders == 1) && (w.txn_id == u)) ≡ true → has_waiter t q ≡ true
      later h = unfold has_waiter in ground (arith, queued)

  request_entry-IsUpgrading :
      (mode : LockMode) (cell : ℕ) (e : LockEntry)
      → IsUpgrading t e
      → IsUpgrading t (request_entry u mode cell e).0
  unfolding request_entry
  request_entry-IsUpgrading mode cell e v = elim (Bool-cases (contains u e.holders)) [
    | inl hit ↦ elim (Bool-cases (is_exclusive e.current_mode || is_shared mode)) [
      | inl h ↦ rw (hit, h) v
      | inr h ↦ rw (hit, h) (upgrade-IsUpgrading mode cell e e.wait_queue refl v)
    ]
    | inr out ↦ elim (Bool-cases (is_compatible e.current_mode mode && is_empty e.wait_queue)) [
      | inl h ↦ rw (out, h) (record { holds = contains-add t u e.holders v.holds; waits = v.waits })
      | inr h ↦ rw (out, h) (enqueue-IsUpgrading _ e v)
    ]
  ]

  release_entry-IsUpgrading :
      (e : LockEntry) (f : Cells) → IsUpgrading t e → IsUpgrading t (release_entry u e f).entry
  unfolding release_entry
  release_entry-IsUpgrading e f v =
      let left = contains-remove t u e.holders other v.holds in
      rw (nonempty_of_contains t (remove u e.holders) left)
        (record { holds = left; waits = v.waits })

  drop_waiters-IsUpgrading : (e : LockEntry) → IsUpgrading t e → IsUpgrading t (drop_waiters u e)
  unfolding drop_waiters
  drop_waiters-IsUpgrading e v = record {
    holds = v.holds;
    waits = has_waiter-without_txn t u e.wait_queue other v.waits;
  }

  IsUpgrading-unused : (e : LockEntry) → IsUpgrading t e → unused e ≡ true → IsUpgrading t fresh
  IsUpgrading-unused e v h = cc (nonempty_of_contains t e.holders v.holds, both_empty)
    where
      both_empty : is_empty e.holders ≡ true
      both_empty = ground arith

abbrev ByOthers : ℕ → List Event → Type 0
ByOthers t = All (λ e. actor e ≢ t)

module _ (t : ℕ) (k : Bytes) where
  wakes-IsUpgrading :
      (u : ℕ) (key : Bytes) (cell : ℕ) (l : Locks)
      → u ≢ t
      → IsUpgrading t (entry_in k l.table)
      → IsUpgrading t (entry_in k (finish_wait u key cell l).0.table)
  unfolding finish_wait
  wakes-IsUpgrading u key cell l d v = elim (Bool-cases (is_abandoned (l.flags cell))) [
    | inr b ↦ rw b v
    | inl b ↦ rw b (
        at_insert (IsUpgrading t) k key _ l
          (λ e.
            drop_waiters-IsUpgrading t u d _
              (subst (λ i. IsUpgrading t (entry_in i l.table)) (sym e) v))
          v)
  ]

  step-IsUpgrading :
      (l : Locks) (e : Event)
      → actor e ≢ t
      → IsUpgrading t (entry_in k l.table)
      → IsUpgrading t (entry_in k (step l e).table)
  unfolding step request
  step-IsUpgrading l (asks u key mode) d v =
      at_insert (IsUpgrading t) k key _ l
        (λ e.
          request_entry-IsUpgrading t u d mode l.next_cell _
            (subst (λ i. IsUpgrading t (entry_in i l.table)) (sym e) v))
        v
  step-IsUpgrading l (wakes u key cell) d v = wakes-IsUpgrading u key cell l d v
  step-IsUpgrading l (releases u key) d v =
      release_lock-P (IsUpgrading t) u (release_entry-IsUpgrading t u d) (IsUpgrading-unused t u d)
        k key l v
  step-IsUpgrading l (releases_all u) d v =
      release_all_locks-P (IsUpgrading t) u (release_entry-IsUpgrading t u d)
        (IsUpgrading-unused t u d) k l v

  -- Once a transaction holds a key and waits for it in a stronger mode, it goes on holding and
  -- waiting whatever the other transactions do, be it that all of them release the key: no call of
  -- theirs grants the upgrade, so that only the timeout ends the wait.
  pub upgrade_not_served :
      (l : Locks) (es : List Event)
      → IsUpgrading t (entry_in k l.table)
      → ByOthers t es
      → IsUpgrading t (entry_in k (run l es).table)
  unfolding run
  upgrade_not_served l [] v d = v
  upgrade_not_served l (e ∷ es) v d =
      upgrade_not_served (step l e) es (step-IsUpgrading l e d.0 v) d.1
