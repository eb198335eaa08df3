-- ===== src/World/Serial/Reads.antt =====
-- A read that has got as far as the table has its key locked.
use concurrent_transactional.Prelude.{
  Bytes, Bool, true, false, ◌&&◌, Option, none, some, ◌≡◌, refl, subst, if_both, Bool-cases, inl,
  inr, [], Option-cases,
}
use concurrent_transactional.Types.{LockMode, IsolationLevel}
use concurrent_transactional.Prelude.Map.{lookup, bytes_order}
use concurrent_transactional.Store.{get}
use concurrent_transactional.Locks.{request, finish_wait}
use concurrent_transactional.Transaction.Replies.{Status}
use concurrent_transactional.Transaction.{Shared, Manager, finish_get, read_value, is_no_store}
use concurrent_transactional.World.{
  writes, reads, Standing, is_ready, is_granted, ready, for_lock, for_flush, applying, Session,
  request_lock, resume, Act, starts, requests, resumes, commits, passes, applies, aborts, act,
}
use concurrent_transactional.World.Effects.{both-true, reader}
use concurrent_transactional.World.Invariant.{IsSteady}
use concurrent_transactional.World.Orderly.{is_running}
use concurrent_transactional.World.Held.{HasLocked, finish-key}
use concurrent_transactional.World.Serial.{awaited, read_by, is_unset, reply_to, answer_from}

some_inj : {a b : Bytes} → some a ≡ some b → a ≡ b
some_inj e = cc e

request_lock-reads :
    (key : Bytes) (s : Session) (w : Shared)
    → s.manager.current_txn.isolation_level ≡ IsolationLevel.repeatable_read
    → is_ready (request_lock (reads key) s w).0.standing ≡ true
    → is_running (request_lock (reads key) s w).0 ≡ true
    → HasLocked key (request_lock (reads key) s w).0.manager
unfolding request_lock
request_lock-reads key s w h =
    let (l, attempt) = request s.manager.current_txn.txn_id key LockMode.shared w.locks in
    if_both
      (λ (x : Session × Shared).
        is_ready x.0.standing ≡ true → is_running x.0 ≡ true → HasLocked key x.0.manager)
      (is_granted attempt) _ _ (λ b y r. finish-key key true s.manager (record w { locks = l }) h r)
      (λ b y r. cc y)

resume-reads :
    (p : Standing) (key : Bytes) (s : Session) (w : Shared)
    → s.standing ≡ p
    → IsSteady s w
    → awaited p ≡ some key
    → is_running (resume p s w).0 ≡ true
    → HasLocked key (resume p s w).0.manager
unfolding resume
resume-reads ready key s w e h f r = cc f
resume-reads (for_lock (writes k entry) cell) key s w e h f r = cc f
resume-reads (for_lock (reads k) cell) key s w e h f r = elim (Bool-cases (is_running s)) [
  | inr i ↦ absurd (cc (h.idle i, e))
  | inl a ↦
      let (l, got) = finish_wait s.manager.current_txn.txn_id k cell w.locks in
      subst (λ i. HasLocked i (resume (for_lock (reads k) cell) s w).0.manager) (some_inj f)
        (finish-key k got s.manager (record w { locks = l }) (h.locked a).level r)
]
resume-reads (for_flush lsn) key s w e h f r = cc f
resume-reads (applying rest) key s w e h f r = cc f

requests-reads :
    (k : Bytes) (s : Session) (w : Shared)
    → IsSteady s w
    → is_ready (act (requests (reads k)) s w).0.standing ≡ true
    → is_running (act (requests (reads k)) s w).0 ≡ true
    → HasLocked k (act (requests (reads k)) s w).0.manager
unfolding act
requests-reads k s w h =
    if_both
      (λ (x : Session × Shared).
        is_ready x.0.standing ≡ true → is_running x.0 ≡ true → HasLocked k x.0.manager)
      (is_ready s.standing && is_running s) _ _
      (λ b.
        request_lock-reads k s w
          (h.locked (both-true (is_ready s.standing) (is_running s) b)).level)
      (λ b y r. absurd (neither (is_ready s.standing) (is_running s) b y r))
  where
    neither : (p q : Bool) → (p && q) ≡ false → p ≡ true → q ≡ true → ⊥
    neither true q b y r = cc (b, r)
    neither false q b y r = cc y

pub act-reads :
    (a : Act) (key : Bytes) (s : Session) (w : Shared)
    → IsSteady s w
    → read_by a s.standing ≡ some key
    → is_ready (act a s w).0.standing ≡ true
    → is_running (act a s w).0 ≡ true
    → HasLocked key (act a s w).0.manager
unfolding act
act-reads (starts level) key s w h f y r = cc f
act-reads (requests (writes k entry)) key s w h f y r = cc f
act-reads (requests (reads k)) key s w h f y r =
    subst (λ i. HasLocked i (act (requests (reads k)) s w).0.manager) (some_inj f)
      (requests-reads k s w h y r)
act-reads resumes key s w h f y r = resume-reads s.standing key s w refl h f r
act-reads commits key s w h f y r = cc f
act-reads passes key s w h f y r = cc f
act-reads applies key s w h f y r = cc f
act-reads aborts key s w h f y r = cc f

answer_found :
    (x : Option Bytes)
    → (elim x [ some v ↦ (Status.success, v) | none ↦ (Status.not_found, []) ]) ≡ answer_from x
unfolding answer_from
answer_found none = refl
answer_found (some v) = refl

read_value-answer_from :
    (key : Bytes) (m : Manager) (w : Shared)
    → m.store ≡ true
    → is_unset (lookup key m.current_txn.pending_buffer) ≡ true
    → read_value key m w ≡ answer_from (get key w.store)
unfolding read_value answer_from
read_value-answer_from key m w s u = elim (Option-cases (lookup key m.current_txn.pending_buffer)) [
  | inl e ↦ rw (read_value, e, s) (answer_found (get key w.store))
  | inr (entry, e) ↦ absurd (set (lookup key m.current_txn.pending_buffer) entry e u)
]
  where
    set :
        (x : Option (Bytes × Bool)) (entry : Bytes × Bool) → x ≡ some entry → is_unset x ≡ true → ⊥
    set none entry e u = cc e
    set (some x) entry e u = cc u

-- A key that the transaction has not written is answered from the table.
pub reply_to-answer_from :
    (key : Bytes) (m : Manager) (w : Shared)
    → m.store ≡ true
    → is_unset (lookup key m.current_txn.pending_buffer) ≡ true
    → reply_to key m w ≡ answer_from (get key w.store)
unfolding reply_to finish_get
reply_to-answer_from key m w s u =
    if_both
      (λ (r : (Manager × Shared × Status) × Bytes). (r.0.2, r.1) ≡ answer_from (get key w.store))
      (is_no_store (read_value key (reader key m) w).0) _ _ (λ b. value) (λ b. value)
  where
    value : read_value key (reader key m) w ≡ answer_from (get key w.store)
    value = read_value-answer_from key (reader key m) w s u
