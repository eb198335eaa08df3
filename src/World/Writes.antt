-- ===== src/World/Writes.antt =====
-- Which steps change the table: only a step of a transaction that has the key exclusively.
use concurrent_transactional.Prelude.{
  ℕ, Bytes, bytes_eq, bytes_eq_iff, Bool, true, false, ◌&&◌, List, [], ◌∷◌, length, ◌≡◌, ◌⊎◌, refl,
  arith, subst, ◌∙◌, ap, if_both, Bool-cases, inl, inr, some, not,
}
use concurrent_transactional.Prelude.Map.{Map, lookup, bytes_order}
use concurrent_transactional.Types.{LockMode, IsolationLevel, is_exclusive}
use concurrent_transactional.Store.{Store, get}
use concurrent_transactional.Locks.{Locks, entry_in, request, finish_wait}
use concurrent_transactional.Locks.Entry.{LockEntry}
use concurrent_transactional.Locks.Consistent.{Grants, IsConsistent}
use concurrent_transactional.Locks.Exclusion.{single_holder}
use concurrent_transactional.Locks.Holds.{Holds}
use concurrent_transactional.Transaction.Replies.{Status}
use concurrent_transactional.Transaction.{
  Shared, Manager, begin, allocate_txn_id, abort_deadlocked, finish_write, release_all, end_commit,
  is_active, apply_pending,
}
use concurrent_transactional.Transaction.Commit.{get-apply_pending, outcome}
use concurrent_transactional.Transaction.Abort.{abort-store}
use concurrent_transactional.World.{
  key_of, mode_of, Request, writes, reads, Standing, is_ready, is_granted, ready, for_lock,
  for_flush, applying, Session, finish, request_lock, resume, start_commit, apply_next, Act, starts,
  requests, resumes, commits, passes, applies, aborts, act,
}
use concurrent_transactional.World.Effects.{finish_get_kept, finish_lost, both-true}
use concurrent_transactional.World.Invariant.{HoldsAll, Promise, IsSteady}
use concurrent_transactional.World.Orderly.{is_running, txn_of}

pub lookup-Holds :
    {V : Type 0} (t : ℕ) (mode : LockMode) (l : Locks) (k : Bytes) (v : V) (m : Map Bytes V)
    → HoldsAll t mode l m
    → lookup k m ≡ some v
    → Holds t mode (entry_in k l.table)
unfolding lookup
lookup-Holds t mode l k v [] h e = absurd (cc e)
lookup-Holds t mode l k v ((j, x) ∷ m) (a, h) e = elim (Bool-cases (bytes_eq j k)) [
  | inl s ↦ subst (λ i. Holds t mode (entry_in i l.table)) ((bytes_eq_iff j k).0 s) a
  | inr d ↦ lookup-Holds t mode l k v m h (later d)
]
  where
    later : bytes_eq j k ≡ false → lookup k m ≡ some v
    later d = ground (arith, d, e)

-- An exclusive holder is the only holder.
pub same_holder :
    (t u : ℕ) (e : LockEntry)
    → IsConsistent e
    → Holds t LockMode.exclusive e
    → Holds u LockMode.shared e
    → t ≡ u
same_holder t u e c h g =
    single_holder t u e.holders (alone e.current_mode e.holders c.grants (h.strong refl)) h.holder
      g.holder
  where
    alone : (m : LockMode) (hs : List ℕ) → Grants m hs → is_exclusive m ≡ true → length hs ≡ 1
    alone LockMode.none hs x y = cc y
    alone LockMode.shared hs x y = cc y
    alone LockMode.exclusive hs x y = x

pub finish-store :
    (r : Request) (got : Bool) (m : Manager) (w : Shared)
    → m.current_txn.isolation_level ≡ IsolationLevel.repeatable_read
    → (finish r got m w).1.store ≡ w.store
unfolding finish finish_write abort_deadlocked
finish-store r false m w h = rw (finish_lost r m w) (abort-store m w)
finish-store (writes key entry) true m w h = refl
finish-store (reads key) true m w h = rw ((finish_get_kept key m w h).1) refl

-- A step changes the table at a key only for a transaction that has the key exclusively.
abbrev pub Untouched : Bytes → Session → Shared → Session × Shared → Type 0
Untouched k s w x =
    (get k x.1.store ≡ get k w.store)
    ⊎ ((is_running s ≡ true) × Holds (txn_of s) LockMode.exclusive (entry_in k w.locks.table))

pub get-apply_other :
    (k key : Bytes) (entry : Bytes × Bool) (t : Store)
    → bytes_eq key k ≡ false
    → get k (apply_pending ((key, entry) ∷ []) t) ≡ get k t
unfolding outcome lookup
get-apply_other k key entry t other = get-apply_pending k ((key, entry) ∷ []) t (tt, tt) ∙ missed
  where
    missed : outcome (lookup k ((key, entry) ∷ [])) (get k t) ≡ get k t
    missed = rw other refl

apply_next-Untouched :
    (p : Standing) (k : Bytes) (s : Session) (w : Shared)
    → s.standing ≡ p
    → IsSteady s w
    → Untouched k s w (apply_next p s w)
unfolding apply_next end_commit release_all
apply_next-Untouched ready k s w e h = inl refl
apply_next-Untouched (for_lock r cell) k s w e h = inl refl
apply_next-Untouched (for_flush lsn) k s w e h = inl refl
apply_next-Untouched (applying []) k s w e h = inl (
    if_both (λ (x : Shared). get k x.store ≡ get k w.store) s.manager.lock_manager _ _ (λ b. refl)
      (λ b. refl))
apply_next-Untouched (applying ((key, entry) ∷ rest)) k s w e h = elim (Bool-cases (is_running s)) [
  | inr i ↦ absurd (cc (h.idle i, e))
  | inl a ↦ elim (Bool-cases (bytes_eq key k)) [
    | inl same ↦ inr (
      a,
      subst (λ j. Holds (txn_of s) LockMode.exclusive (entry_in j w.locks.table))
          ((bytes_eq_iff key k).0 same)
          (subst (λ p. Promise (txn_of s) p w.locks) e (h.locked a).waits).0,
    )
    | inr other ↦ inl (get-apply_other k key entry w.store other)
  ]
]

pub request_lock-store :
    (r : Request) (s : Session) (w : Shared)
    → s.manager.current_txn.isolation_level ≡ IsolationLevel.repeatable_read
    → (request_lock r s w).1.store ≡ w.store
unfolding request_lock
request_lock-store r s w h =
    let (l, attempt) = request (txn_of s) (key_of r) (mode_of r) w.locks in
    if_both (λ (x : Session × Shared). x.1.store ≡ w.store) (is_granted attempt) _ _
      (λ b. finish-store r true s.manager (record w { locks = l }) h) (λ b. refl)

pub resume-store :
    (p : Standing) (s : Session) (w : Shared)
    → s.standing ≡ p
    → IsSteady s w
    → (resume p s w).1.store ≡ w.store
unfolding resume
resume-store ready s w e h = refl
resume-store (for_flush lsn) s w e h = refl
resume-store (applying rest) s w e h = refl
resume-store (for_lock r cell) s w e h = elim (Bool-cases (is_running s)) [
  | inr i ↦ absurd (cc (h.idle i, e))
  | inl a ↦
      let (l, got) = finish_wait (txn_of s) (key_of r) cell w.locks in
      finish-store r got s.manager (record w { locks = l }) (h.locked a).level
]

pub begin-store :
    (level : IsolationLevel) (m : Manager) (w : Shared) → (begin level m w).1.store ≡ w.store
unfolding begin allocate_txn_id
begin-store level m w =
    let P : Manager × Shared × Status → Type 0 = λ x. x.1.store ≡ w.store in
    if_both P (is_active m.current_txn.state) _ _ (λ a. refl)
      (λ a.
        if_both P (not m.server) _ _ (λ b. refl)
          (λ b. if_both (λ (x : Shared). x.store ≡ w.store) m.wal _ _ (λ c. refl) (λ c. refl)))

pub act-Untouched :
    (a : Act) (k : Bytes) (s : Session) (w : Shared) → IsSteady s w → Untouched k s w (act a s w)
unfolding act start_commit
act-Untouched (starts level) k s w h = inl (
    ap (get k) (
      if_both (λ (x : Session × Shared). x.1.store ≡ w.store) (is_ready s.standing) _ _
        (λ b. begin-store level s.manager w) (λ b. refl)))
act-Untouched (requests r) k s w h = inl (
    ap (get k) (
      if_both (λ (x : Session × Shared). x.1.store ≡ w.store) (is_ready s.standing && is_running s)
        _ _ (λ b. request_lock-store r s w (h.locked (both-true (is_ready s.standing) _ b)).level)
        (λ b. refl)))
act-Untouched resumes k s w h = inl (ap (get k) (resume-store s.standing s w refl h))
act-Untouched commits k s w h = inl (
    if_both (λ (x : Session × Shared). get k x.1.store ≡ get k w.store)
      (is_ready s.standing && is_running s) _ _ (λ b. refl) (λ b. refl))
act-Untouched passes k s w h = inl refl
act-Untouched applies k s w h = apply_next-Untouched s.standing k s w refl h
act-Untouched aborts k s w h = inl (
    ap (get k) (
      if_both (λ (x : Session × Shared). x.1.store ≡ w.store) (is_ready s.standing) _ _
        (λ b. abort-store s.manager w) (λ b. refl)))
