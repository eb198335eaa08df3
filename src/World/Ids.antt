-- ===== src/World/Ids.antt =====
-- A step of a session keeps the number of its transaction, or takes the next one.
use concurrent_transactional.Prelude.{
  ℕ, ◌+◌, ◌<◌, ◌^◌, Bool, true, false, not, ◌&&◌, [], ◌∷◌, ◌≤◌, ◌⊎◌, ◌∙◌, ◌≡◌, refl, arith, if_both,
  Bool-cases, inl, inr,
}
use concurrent_transactional.Prelude.Map.{bytes_order}
use concurrent_transactional.Types.{IsolationLevel}
use concurrent_transactional.Locks.{request, finish_wait}
use concurrent_transactional.GroupCommit.{wait_for_commit}
use concurrent_transactional.Transaction.Replies.{Status}
use concurrent_transactional.Transaction.{
  Shared, Manager, is_active, begin, allocate_txn_id, abort, abort_deadlocked, end_commit,
  release_all, finish_write,
}
use concurrent_transactional.World.{
  Request, writes, reads, key_of, mode_of, Standing, is_ready, is_granted, ready, for_lock,
  for_flush, applying, Session, finish, request_lock, resume, start_commit, pass_flush, apply_next,
  Act, starts, requests, resumes, commits, passes, applies, aborts, act,
}
use concurrent_transactional.World.Effects.{finish_get_kept, finish_lost, both-true}
use concurrent_transactional.World.Invariant.{IsSteady}

pub record Follows (s : Session) (w : Shared) (x : Session × Shared) : Type 0 where
  pub grows : w.next_txn_id ≤ x.1.next_txn_id
  pub slowly : x.1.next_txn_id ≤ w.next_txn_id + 1
  pub same_or_new :
      is_active x.0.manager.current_txn.state ≡ true
      → ((is_active s.manager.current_txn.state ≡ true)
          × (x.0.manager.current_txn.txn_id ≡ s.manager.current_txn.txn_id))
        ⊎ (x.0.manager.current_txn.txn_id ≡ w.next_txn_id)

stays : (s : Session) (w : Shared) → Follows s w (s, w)
stays s w = record { grows = omega arith; slowly = omega arith; same_or_new = λ a. inl (a, refl) }

pub abort_inactive : (m : Manager) (w : Shared) → is_active (abort m w).0.current_txn.state ≡ false
unfolding abort
abort_inactive m w =
    if_both (λ (x : Manager × Shared × Status). is_active x.0.current_txn.state ≡ false)
      (is_active m.current_txn.state) _ _ (λ a. refl) (λ a. a)

release_all-next :
    (m : Manager) (u : ℕ) (w : Shared) → (release_all m u w).next_txn_id ≡ w.next_txn_id
unfolding release_all
release_all-next m u w =
    if_both (λ (x : Shared). x.next_txn_id ≡ w.next_txn_id) m.lock_manager _ _ (λ b. refl)
      (λ b. refl)

abort-next : (m : Manager) (w : Shared) → (abort m w).1.next_txn_id ≡ w.next_txn_id
unfolding abort
abort-next m w =
    let u = m.current_txn.txn_id in
    if_both (λ (x : Manager × Shared × Status). x.1.next_txn_id ≡ w.next_txn_id)
      (is_active m.current_txn.state) _ _
      (λ a.
        release_all-next m u _
        ∙ if_both (λ (x : Shared). x.next_txn_id ≡ w.next_txn_id) m.wal _ _ (λ b. refl) (λ b. refl))
      (λ a. refl)

finish-Follows :
    (r : Request) (got : Bool) (s : Session) (p : Standing) (w v : Shared)
    → is_active s.manager.current_txn.state ≡ true
    → s.manager.current_txn.isolation_level ≡ IsolationLevel.repeatable_read
    → v.next_txn_id ≡ w.next_txn_id
    → Follows s w (
      record { manager = (finish r got s.manager v).0; standing = p },
      (finish r got s.manager v).1,
    )
unfolding finish finish_write abort_deadlocked
finish-Follows r false s p w v a h e = rw (finish_lost r s.manager v) (record {
  grows = omega (arith, abort-next s.manager v, e);
  slowly = omega (arith, abort-next s.manager v, e);
  same_or_new = λ x. absurd (cc (abort_inactive s.manager v, x));
})
finish-Follows (writes key entry) true s p w v a h e = record {
  grows = omega (arith, e);
  slowly = omega (arith, e);
  same_or_new = λ x. inl (a, refl);
}
finish-Follows (reads key) true s p w v a h e =
    let (f, g) = finish_get_kept key s.manager v h in
    rw (f, g)
      (record {
        grows = omega (arith, e);
        slowly = omega (arith, e);
        same_or_new = λ x. inl (a, refl);
      })

request_lock-Follows :
    (r : Request) (s : Session) (w : Shared)
    → is_active s.manager.current_txn.state ≡ true
    → s.manager.current_txn.isolation_level ≡ IsolationLevel.repeatable_read
    → Follows s w (request_lock r s w)
unfolding request_lock
request_lock-Follows r s w a h =
    let t = s.manager.current_txn.txn_id in
    let (l, attempt) = request t (key_of r) (mode_of r) w.locks in
    if_both (Follows s w) (is_granted attempt) _ _
      (λ b. finish-Follows r true s s.standing w (record w { locks = l }) a h refl)
      (λ b. record { grows = omega arith; slowly = omega arith; same_or_new = λ x. inl (x, refl) })

resume-Follows :
    (p : Standing) (s : Session) (w : Shared)
    → s.standing ≡ p
    → IsSteady s w
    → Follows s w (resume p s w)
unfolding resume
resume-Follows ready s w e h = stays s w
resume-Follows (for_flush lsn) s w e h = stays s w
resume-Follows (applying rest) s w e h = stays s w
resume-Follows (for_lock r cell) s w e h =
    elim (Bool-cases (is_active s.manager.current_txn.state)) [
      | inr i ↦ absurd (cc (h.idle i, e))
      | inl a ↦
          let (l, got) = finish_wait s.manager.current_txn.txn_id (key_of r) cell w.locks in
          finish-Follows r got s ready w (record w { locks = l }) a (h.locked a).level refl
    ]

pass_flush-Follows : (p : Standing) (s : Session) (w : Shared) → Follows s w (pass_flush p s w, w)
unfolding pass_flush
pass_flush-Follows ready s w = stays s w
pass_flush-Follows (for_lock r cell) s w = stays s w
pass_flush-Follows (applying rest) s w = stays s w
pass_flush-Follows (for_flush lsn) s w =
    if_both (λ (x : Session). Follows s w (x, w)) (wait_for_commit lsn w.wal) _ _
      (λ b. record { grows = omega arith; slowly = omega arith; same_or_new = λ x. inl (x, refl) })
      (λ b. stays s w)

apply_next-Follows : (p : Standing) (s : Session) (w : Shared) → Follows s w (apply_next p s w)
unfolding apply_next end_commit
apply_next-Follows ready s w = stays s w
apply_next-Follows (for_lock r cell) s w = stays s w
apply_next-Follows (for_flush lsn) s w = stays s w
apply_next-Follows (applying []) s w = record {
  grows = omega (arith, release_all-next s.manager s.manager.current_txn.txn_id w);
  slowly = omega (arith, release_all-next s.manager s.manager.current_txn.txn_id w);
  same_or_new = λ x. absurd (cc x);
}
apply_next-Follows (applying (entry ∷ rest)) s w = record {
  grows = omega arith;
  slowly = omega arith;
  same_or_new = λ x. inl (x, refl);
}

begin-Follows :
    (level : IsolationLevel) (s : Session) (w : Shared)
    → w.next_txn_id + 1 < 2 ^ 32
    → Follows s w (record s { manager = (begin level s.manager w).0 }, (begin level s.manager w).1)
unfolding begin allocate_txn_id
begin-Follows level s w n =
    let P : Manager × Shared × Status → Type 0 =
      λ x. Follows s w (record s { manager = x.0 }, x.1) in
    if_both P (is_active s.manager.current_txn.state) _ _ (λ a. stays s w)
      (λ a.
        if_both P (not s.manager.server) _ _ (λ b. stays s w)
          (λ b. record {
            grows =
                if_both (λ (y : Shared). w.next_txn_id ≤ y.next_txn_id) s.manager.wal _ _
                  (λ z. omega (arith, n)) (λ z. omega (arith, n));
            slowly =
                if_both (λ (y : Shared). y.next_txn_id ≤ w.next_txn_id + 1) s.manager.wal _ _
                  (λ z. omega (arith, n)) (λ z. omega (arith, n));
            same_or_new = λ x. inr refl;
          }))

pub act-Follows :
    (a : Act) (s : Session) (w : Shared)
    → w.next_txn_id + 1 < 2 ^ 32
    → IsSteady s w
    → Follows s w (act a s w)
unfolding act start_commit
act-Follows (starts level) s w n h =
    if_both (Follows s w) (is_ready s.standing) _ _ (λ b. begin-Follows level s w n)
      (λ b. stays s w)
act-Follows (requests r) s w n h =
    if_both (Follows s w) (is_ready s.standing && is_active s.manager.current_txn.state) _ _
      (λ b.
        let a = both-true (is_ready s.standing) _ b in
        request_lock-Follows r s w a (h.locked a).level)
      (λ b. stays s w)
act-Follows resumes s w n h = resume-Follows s.standing s w refl h
act-Follows commits s w n h =
    if_both (Follows s w) (is_ready s.standing && is_active s.manager.current_txn.state) _ _
      (λ b. record { grows = omega arith; slowly = omega arith; same_or_new = λ x. inl (x, refl) })
      (λ b. stays s w)
act-Follows passes s w n h = pass_flush-Follows s.standing s w
act-Follows applies s w n h = apply_next-Follows s.standing s w
act-Follows aborts s w n h =
    if_both (Follows s w) (is_ready s.standing) _ _
      (λ b. record {
        grows = omega (arith, abort-next s.manager w);
        slowly = omega (arith, abort-next s.manager w);
        same_or_new = λ x. absurd (cc (abort_inactive s.manager w, x));
      })
      (λ b. stays s w)
