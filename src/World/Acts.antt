-- ===== src/World/Acts.antt =====
-- Every step of a session keeps its part of the invariant.
use concurrent_transactional.Prelude.{
  ◌+◌, ◌<◌, ◌^◌, Bool, true, false, not, ◌&&◌, [], ◌∷◌, ◌≡◌, refl, arith, sym, subst, if_both,
  Bool-cases, inl, inr,
}
use concurrent_transactional.Prelude.Map.{bytes_order}
use concurrent_transactional.Types.{IsolationLevel}
use concurrent_transactional.Locks.{request, finish_wait}
use concurrent_transactional.Locks.Entry.{Attempt}
use concurrent_transactional.Locks.Numbers.{IsNumbered, request-Ticket}
use concurrent_transactional.Locks.Grants.{request-granted, finish_wait-granted}
use concurrent_transactional.Locks.History.{asks, wakes, step}
use concurrent_transactional.GroupCommit.{wait_for_commit}
use concurrent_transactional.Transaction.Replies.{Status}
use concurrent_transactional.Transaction.{
  Shared, Manager, is_active, begin, allocate_txn_id, abort, end_commit,
}
use concurrent_transactional.World.{
  Request, key_of, mode_of, Standing, is_ready, is_granted, ready, for_lock, for_flush, applying,
  Session, finish, request_lock, resume, start_commit, pass_flush, apply_next, Act, starts,
  requests, resumes, commits, passes, applies, aborts, act,
}
use concurrent_transactional.World.Effects.{both-true}
use concurrent_transactional.World.Invariant.{Promise, IsSteady, step-IsLocked}
use concurrent_transactional.World.Steps.{idle-IsSteady, abort-IsSteady, finish-IsSteady}

abbrev Steady : Session × Shared → Type 0
Steady x = IsSteady x.0 x.1

request_lock-IsSteady :
    (r : Request) (s : Session) (w : Shared)
    → s.standing ≡ ready
    → is_active s.manager.current_txn.state ≡ true
    → IsNumbered w.locks
    → IsSteady s w
    → Steady (request_lock r s w)
unfolding request_lock step request
request_lock-IsSteady r s w e a k h =
    let t = s.manager.current_txn.txn_id in
    let (l, attempt) = request t (key_of r) (mode_of r) w.locks in
    let kept =
      step-IsLocked s.manager s.standing w.locks (asks t (key_of r) (mode_of r)) tt (h.locked a) in
    if_both Steady (is_granted attempt) _ _
      (λ b.
        subst
          (λ p.
            IsSteady
              (record {
                manager = (finish r true s.manager (record w { locks = l })).0;
                standing = p;
              })
              (finish r true s.manager (record w { locks = l })).1)
          (sym e)
          (finish-IsSteady s.manager (record w { locks = l }) h.connected a s.standing kept
            (h.numbered a) r true
            (λ x. request-granted t (mode_of r) (key_of r) w.locks (is_granted-granted attempt b))))
      (λ b. record {
        connected = h.connected;
        idle = λ i. absurd (cc (i, a));
        locked = λ x. record {
          level = kept.level;
          writes = kept.writes;
          reads = kept.reads;
          waits = request-Ticket t (mode_of r) (key_of r) w.locks k;
        };
        numbered = h.numbered;
      })
  where
    is_granted-granted : (x : Attempt) → is_granted x ≡ true → x ≡ Attempt.granted
    is_granted-granted Attempt.granted b = refl
    is_granted-granted Attempt.waiting b = cc b

resume-IsSteady :
    (p : Standing) (s : Session) (w : Shared)
    → s.standing ≡ p
    → IsSteady s w
    → Steady (resume p s w)
unfolding resume step
resume-IsSteady ready s w e h = h
resume-IsSteady (for_flush lsn) s w e h = h
resume-IsSteady (applying rest) s w e h = h
resume-IsSteady (for_lock r cell) s w e h =
    elim (Bool-cases (is_active s.manager.current_txn.state)) [
      | inr i ↦ absurd (cc (h.idle i, e))
      | inl a ↦
          let t = s.manager.current_txn.txn_id in
          let (l, got) = finish_wait t (key_of r) cell w.locks in
          let locked = h.locked a in
          let ticket = subst (λ p. Promise t p w.locks) e locked.waits in
          finish-IsSteady s.manager (record w { locks = l }) h.connected a s.standing
            (step-IsLocked s.manager s.standing w.locks (wakes t (key_of r) cell) tt locked)
            (h.numbered a) r got (finish_wait-granted t (mode_of r) (key_of r) cell w.locks ticket)
    ]

pass_flush-IsSteady :
    (p : Standing) (s : Session) (w : Shared)
    → s.standing ≡ p
    → IsSteady s w
    → IsSteady (pass_flush p s w) w
unfolding pass_flush
pass_flush-IsSteady ready s w e h = h
pass_flush-IsSteady (for_lock r cell) s w e h = h
pass_flush-IsSteady (applying rest) s w e h = h
pass_flush-IsSteady (for_flush lsn) s w e h =
    if_both (λ (x : Session). IsSteady x w) (wait_for_commit lsn w.wal) _ _
      (λ b. record {
        connected = h.connected;
        idle = λ i. absurd (cc (h.idle i, e));
        locked = λ a. record {
          level = (h.locked a).level;
          writes = (h.locked a).writes;
          reads = (h.locked a).reads;
          waits = (h.locked a).writes;
        };
        numbered = h.numbered;
      })
      (λ b. h)

apply_next-IsSteady :
    (p : Standing) (s : Session) (w : Shared)
    → s.standing ≡ p
    → IsSteady s w
    → Steady (apply_next p s w)
unfolding apply_next end_commit
apply_next-IsSteady ready s w e h = h
apply_next-IsSteady (for_lock r cell) s w e h = h
apply_next-IsSteady (for_flush lsn) s w e h = h
apply_next-IsSteady (applying []) s w e h =
    idle-IsSteady _ _
      (record {
        server_set = h.connected.server_set;
        store_set = h.connected.store_set;
        lock_manager_set = h.connected.lock_manager_set;
        wal_set = h.connected.wal_set;
        group_commit_set = h.connected.group_commit_set;
      })
      refl
apply_next-IsSteady (applying (entry ∷ rest)) s w e h = record {
  connected = h.connected;
  idle = λ i. absurd (cc (h.idle i, e));
  locked = λ a. record {
    level = (h.locked a).level;
    writes = (h.locked a).writes;
    reads = (h.locked a).reads;
    waits = (subst (λ p. Promise s.manager.current_txn.txn_id p w.locks) e (h.locked a).waits).1;
  };
  numbered = h.numbered;
}

begin-IsSteady :
    (level : IsolationLevel) (s : Session) (w : Shared)
    → level ≡ IsolationLevel.repeatable_read
    → w.next_txn_id + 1 < 2 ^ 32
    → s.standing ≡ ready
    → IsSteady s w
    → IsSteady (record s { manager = (begin level s.manager w).0 }) (begin level s.manager w).1
unfolding begin allocate_txn_id
begin-IsSteady level s w r n e h =
    let P : Manager × Shared × Status → Type 0 = λ x. IsSteady (record s { manager = x.0 }) x.1 in
    if_both P (is_active s.manager.current_txn.state) _ _ (λ a. h)
      (λ a.
        if_both P (not s.manager.server) _ _ (λ b. h)
          (λ b. record {
            connected = record {
              server_set = h.connected.server_set;
              store_set = h.connected.store_set;
              lock_manager_set = h.connected.lock_manager_set;
              wal_set = h.connected.wal_set;
              group_commit_set = h.connected.group_commit_set;
            };
            idle = λ i. e;
            locked = λ x. record { level = r; writes = tt; reads = tt; waits = rw e tt };
            numbered = λ x.
                if_both (λ (y : Shared). w.next_txn_id < y.next_txn_id) s.manager.wal _ _
                  (λ z. omega (arith, n)) (λ z. omega (arith, n));
          }))

-- A session starts no transaction at the weaker level.
abbrev pub IsRepeatable : Act → Type 0
IsRepeatable (starts level) = level ≡ IsolationLevel.repeatable_read
IsRepeatable (requests r) = Unit
IsRepeatable resumes = Unit
IsRepeatable commits = Unit
IsRepeatable passes = Unit
IsRepeatable applies = Unit
IsRepeatable aborts = Unit

ready_of : (p : Standing) → is_ready p ≡ true → p ≡ ready
ready_of ready h = refl
ready_of (for_lock r cell) h = cc h
ready_of (for_flush lsn) h = cc h
ready_of (applying rest) h = cc h

first-true : (a b : Bool) → (a && b) ≡ true → a ≡ true
first-true true b h = refl
first-true false b h = cc h

pub act-IsSteady :
    (a : Act) (s : Session) (w : Shared)
    → IsRepeatable a
    → w.next_txn_id + 1 < 2 ^ 32
    → IsNumbered w.locks
    → IsSteady s w
    → Steady (act a s w)
unfolding act start_commit
act-IsSteady (starts level) s w r n k h =
    if_both Steady (is_ready s.standing) _ _
      (λ b. begin-IsSteady level s w r n (ready_of s.standing b) h) (λ b. h)
act-IsSteady (requests r) s w x n k h =
    if_both Steady (is_ready s.standing && is_active s.manager.current_txn.state) _ _
      (λ b.
        request_lock-IsSteady r s w (ready_of s.standing (first-true _ _ b))
          (both-true (is_ready s.standing) _ b) k h)
      (λ b. h)
act-IsSteady resumes s w x n k h = resume-IsSteady s.standing s w refl h
act-IsSteady commits s w x n k h =
    if_both Steady (is_ready s.standing && is_active s.manager.current_txn.state) _ _
      (λ b. record {
        connected = h.connected;
        idle = λ i. absurd (cc (i, both-true (is_ready s.standing) _ b));
        locked = λ a. record {
          level = (h.locked a).level;
          writes = (h.locked a).writes;
          reads = (h.locked a).reads;
          waits = tt;
        };
        numbered = h.numbered;
      })
      (λ b. h)
act-IsSteady passes s w x n k h = pass_flush-IsSteady s.standing s w refl h
act-IsSteady applies s w x n k h = apply_next-IsSteady s.standing s w refl h
act-IsSteady aborts s w x n k h =
    if_both Steady (is_ready s.standing) _ _
      (λ b.
        subst
          (λ p.
            IsSteady (record { manager = (abort s.manager w).0; standing = p })
              (abort s.manager w).1)
          (sym (ready_of s.standing b))
          (abort-IsSteady s.manager w (abort s.manager w).1 h.connected))
      (λ b. h)
