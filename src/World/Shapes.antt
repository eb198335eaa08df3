-- ===== src/World/Shapes.antt =====
-- What a step of a session leaves of the table and of its own transaction, while it applies no
-- buffer.
use concurrent_transactional.Prelude.{
  Bytes, Bool, true, false, ◌&&◌, [], ◌≡◌, ◌⊎◌, refl, sym, subst, ap, ◌∙◌, if_both, Bool-cases, inl,
  inr,
}
use concurrent_transactional.Prelude.Map.{Map, bytes_order}
use concurrent_transactional.Prelude.Sorted.{Sorted}
use concurrent_transactional.Types.{IsolationLevel}
use concurrent_transactional.Locks.{request, finish_wait}
use concurrent_transactional.GroupCommit.{wait_for_commit}
use concurrent_transactional.Transaction.{Shared, Manager, is_active, begin, abort}
use concurrent_transactional.World.{
  Request, key_of, mode_of, Standing, is_ready, is_granted, ready, for_lock, for_flush, applying,
  Session, finish, request_lock, resume, start_commit, pass_flush, apply_next, Act, starts,
  requests, resumes, commits, passes, applies, aborts, act,
}
use concurrent_transactional.World.Effects.{both-true}
use concurrent_transactional.World.Invariant.{IsSteady}
use concurrent_transactional.Transaction.Abort.{abort-store}
use concurrent_transactional.World.Ids.{abort_inactive}
use concurrent_transactional.World.Orderly.{is_running}
use concurrent_transactional.World.Writes.{finish-store, begin-store}
use concurrent_transactional.World.Held.{
  pending_of, HasLocked, abort-Sorted, finish-Sorted, finish-Has, begin-kept, begin-Sorted,
}

-- A step of a session that applies no buffer.
pub record Mild (s : Session) (w : Shared) (x : Session × Shared) : Type 0 where
  pub same_store : x.1.store ≡ w.store
  pub enters :
      (rest : Map Bytes (Bytes × Bool))
      → x.0.standing ≡ applying rest
      → (rest ≡ pending_of x.0) ⊎ (x.0 ≡ s)
  pub stays : (rest : Map Bytes (Bytes × Bool)) → s.standing ≡ applying rest → x.0 ≡ s
  pub sorted : Sorted (pending_of s) → Sorted (pending_of x.0)
  pub keeps :
      is_running s ≡ true
      → is_running x.0 ≡ true
      → (k : Bytes) → HasLocked k s.manager
      → HasLocked k x.0.manager

abbrev IsApplying : Standing → Type 0
IsApplying ready = ⊥
IsApplying (for_lock r cell) = ⊥
IsApplying (for_flush lsn) = ⊥
IsApplying (applying rest) = Unit

idles : (s : Session) (w : Shared) → Mild s w (s, w)
idles s w = record {
  same_store = refl;
  enters = λ rest f. inr refl;
  stays = λ rest f. refl;
  sorted = λ h. h;
  keeps = λ a b k h. h;
}

-- The rest of a method, for a session that applies nothing before and after.
finish-Mild :
    (r : Request) (got : Bool) (s : Session) (p : Standing) (w v : Shared)
    → s.manager.current_txn.isolation_level ≡ IsolationLevel.repeatable_read
    → ¬ IsApplying s.standing
    → ¬ IsApplying p
    → v.store ≡ w.store
    → Mild s w (
      record { manager = (finish r got s.manager v).0; standing = p },
      (finish r got s.manager v).1,
    )
finish-Mild r got s p w v h o n e = record {
  same_store = finish-store r got s.manager v h ∙ e;
  enters = λ rest f. absurd (n (subst IsApplying (sym f) tt));
  stays = λ rest f. absurd (o (subst IsApplying (sym f) tt));
  sorted = finish-Sorted r got s.manager v h;
  keeps = λ x. finish-Has r got s.manager v h x;
}

pub ready-calm : (p : Standing) → is_ready p ≡ true → ¬ IsApplying p
ready-calm ready e a = a
ready-calm (for_lock r cell) e a = cc e
ready-calm (for_flush lsn) e a = cc e
ready-calm (applying rest) e a = cc e

pub both-left : (a b : Bool) → (a && b) ≡ true → a ≡ true
both-left true b e = refl
both-left false b e = e

-- A step to a wait.
waits-Mild :
    (s : Session) (p : Standing) (w v : Shared)
    → ¬ IsApplying s.standing
    → ((rest : Map Bytes (Bytes × Bool)) → p ≡ applying rest → rest ≡ pending_of s)
    → v.store ≡ w.store
    → Mild s w (record s { standing = p }, v)
waits-Mild s p w v o f e = record {
  same_store = e;
  enters = λ rest g. inl (f rest g);
  stays = λ rest g. absurd (o (subst IsApplying (sym g) tt));
  sorted = λ g. g;
  keeps = λ a b k g. g;
}

ready_step :
    (s : Session) (w : Shared) (m : Manager) (v : Shared)
    → is_ready s.standing ≡ true
    → v.store ≡ w.store
    → (Sorted (pending_of s) → Sorted m.current_txn.pending_buffer)
    → (is_running s ≡ true
        → is_active m.current_txn.state ≡ true
        → (k : Bytes) → HasLocked k s.manager
        → HasLocked k m)
    → Mild s w (record s { manager = m }, v)
ready_step s w m v r e g f = record {
  same_store = e;
  enters = λ rest a. absurd (ready-calm s.standing r (subst IsApplying (sym a) tt));
  stays = λ rest a. absurd (ready-calm s.standing r (subst IsApplying (sym a) tt));
  sorted = g;
  keeps = f;
}

begin-Mild :
    (level : IsolationLevel) (s : Session) (w : Shared)
    → is_ready s.standing ≡ true
    → Mild s w (record s { manager = (begin level s.manager w).0 }, (begin level s.manager w).1)
begin-Mild level s w r =
    ready_step s w (begin level s.manager w).0 (begin level s.manager w).1 r
      (begin-store level s.manager w) (begin-Sorted level s.manager w)
      (λ a b k h. subst (HasLocked k) (sym (begin-kept level s.manager w a)) h)

abort-Mild :
    (s : Session) (w : Shared)
    → is_ready s.standing ≡ true
    → Mild s w (record s { manager = (abort s.manager w).0 }, (abort s.manager w).1)
abort-Mild s w r =
    ready_step s w (abort s.manager w).0 (abort s.manager w).1 r (abort-store s.manager w)
      (abort-Sorted s.manager w) (λ a b k h. absurd (cc (abort_inactive s.manager w, b)))

request_lock-Mild :
    (r : Request) (s : Session) (w : Shared)
    → s.manager.current_txn.isolation_level ≡ IsolationLevel.repeatable_read
    → is_active s.manager.current_txn.state ≡ true
    → is_ready s.standing ≡ true
    → Mild s w (request_lock r s w)
unfolding request_lock
request_lock-Mild r s w h a e =
    let (l, attempt) = request s.manager.current_txn.txn_id (key_of r) (mode_of r) w.locks in
    let calm = ready-calm s.standing e in
    if_both (Mild s w) (is_granted attempt) _ _
      (λ b. finish-Mild r true s s.standing w (record w { locks = l }) h calm calm refl)
      (λ b.
        waits-Mild s (for_lock r w.locks.next_cell) w (record w { locks = l }) calm
          (λ rest f. absurd (subst IsApplying (sym f) tt)) refl)

resume-Mild :
    (p : Standing) (s : Session) (w : Shared)
    → s.standing ≡ p
    → IsSteady s w
    → Mild s w (resume p s w)
unfolding resume
resume-Mild ready s w e h = idles s w
resume-Mild (for_flush lsn) s w e h = idles s w
resume-Mild (applying rest) s w e h = idles s w
resume-Mild (for_lock r cell) s w e h = elim (Bool-cases (is_running s)) [
  | inr i ↦ absurd (cc (h.idle i, e))
  | inl a ↦
      let (l, got) = finish_wait s.manager.current_txn.txn_id (key_of r) cell w.locks in
      finish-Mild r got s ready w (record w { locks = l }) (h.locked a).level
        (λ x. subst IsApplying e x) (λ x. x) refl
]

abbrev rest_of : Standing → Map Bytes (Bytes × Bool)
rest_of ready = []
rest_of (for_lock r cell) = []
rest_of (for_flush lsn) = []
rest_of (applying rest) = rest

pub applying_inj : {a b : Map Bytes (Bytes × Bool)} → applying a ≡ applying b → b ≡ a
applying_inj f = sym (ap rest_of f)

pass_flush-Mild :
    (p : Standing) (s : Session) (w : Shared) → s.standing ≡ p → Mild s w (pass_flush p s w, w)
unfolding pass_flush
pass_flush-Mild ready s w e = idles s w
pass_flush-Mild (for_lock r cell) s w e = idles s w
pass_flush-Mild (applying rest) s w e = idles s w
pass_flush-Mild (for_flush lsn) s w e =
    if_both (λ x. Mild s w (x, w)) (wait_for_commit lsn w.wal) _ _
      (λ b.
        waits-Mild s (applying (pending_of s)) w w (λ x. subst IsApplying e x)
          (λ rest f. applying_inj f) refl)
      (λ b. idles s w)

apply_next-Mild :
    (p : Standing) (s : Session) (w : Shared) → ¬ IsApplying p → Mild s w (apply_next p s w)
unfolding apply_next
apply_next-Mild ready s w n = idles s w
apply_next-Mild (for_lock r cell) s w n = idles s w
apply_next-Mild (for_flush lsn) s w n = idles s w
apply_next-Mild (applying rest) s w n = absurd (n tt)

-- The step is not one of the loop over the buffer.
abbrev pub IsMild : Act → Standing → Type 0
IsMild (starts level) p = Unit
IsMild (requests r) p = Unit
IsMild resumes p = Unit
IsMild commits p = Unit
IsMild passes p = Unit
IsMild applies p = ¬ IsApplying p
IsMild aborts p = Unit

pub act-Mild :
    (a : Act) (s : Session) (w : Shared) → IsMild a s.standing → IsSteady s w → Mild s w (act a s w)
unfolding act start_commit
act-Mild (starts level) s w o h =
    if_both (Mild s w) (is_ready s.standing) _ _ (begin-Mild level s w) (λ b. idles s w)
act-Mild (requests r) s w o h =
    if_both (Mild s w) (is_ready s.standing && is_running s) _ _
      (λ b.
        let a = both-true (is_ready s.standing) (is_running s) b in
        request_lock-Mild r s w (h.locked a).level a
          (both-left (is_ready s.standing) (is_running s) b))
      (λ b. idles s w)
act-Mild resumes s w o h = resume-Mild s.standing s w refl h
act-Mild commits s w o h =
    if_both (Mild s w) (is_ready s.standing && is_running s) _ _
      (λ b.
        waits-Mild s _ w _
          (ready-calm s.standing (both-left (is_ready s.standing) (is_running s) b))
          (λ rest f. absurd (subst IsApplying (sym f) tt)) refl)
      (λ b. idles s w)
act-Mild passes s w o h = pass_flush-Mild s.standing s w refl
act-Mild applies s w o h = apply_next-Mild s.standing s w o
act-Mild aborts s w o h =
    if_both (Mild s w) (is_ready s.standing) _ _ (abort-Mild s w) (λ b. idles s w)
