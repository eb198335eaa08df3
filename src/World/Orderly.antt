-- ===== src/World/Orderly.antt =====
-- The invariant holds after any moves of any sessions.
use concurrent_transactional.Prelude.{
  ℕ, ◌+◌, ◌<◌, ◌≤◌, ◌^◌, ◌==◌, ==_iff, Bool, true, false, List, [], ◌∷◌, length, All, ◌≡◌, refl,
  arith, sym, ◌∙◌, if◌then◌else◌, if_both, Bool-cases, inl, inr, Option-cases,
}
use concurrent_transactional.Locks.Numbers.{initial-IsNumbered}
use concurrent_transactional.Locks.History.{initial-IsSound}
use concurrent_transactional.GroupCommit.{flush_once}
use concurrent_transactional.Transaction.{Shared, is_active, new_manager, set_global_references}
use concurrent_transactional.World.{
  Session, Act, act, World, update, Move, acts, flushes, move, run_moves, new_world,
}
use concurrent_transactional.World.Effects.{Effect, act-Effect, act_idle-locks}
use concurrent_transactional.World.Invariant.{
  IsSteady, IsOrderly, Effect-IsLocked, Effect-IsSound, Effect-IsNumbered,
}
use concurrent_transactional.World.Acts.{IsRepeatable, act-IsSteady}
use concurrent_transactional.World.Ids.{act-Follows}

abbrev pub is_running : Session → Bool
is_running s = is_active s.manager.current_txn.state

abbrev pub txn_of : Session → ℕ
txn_of s = s.manager.current_txn.txn_id

steady-Effect :
    (a : Act) (s : Session) (w : Shared)
    → IsSteady s w
    → Effect (txn_of s) w.locks (act a s w).1.locks
steady-Effect a s w h = act-Effect a s w (λ x. (h.locked x).level) h.idle

-- The other sessions are not disturbed.
other-IsSteady :
    (a : Act) (s o : Session) (w : Shared)
    → w.next_txn_id + 1 < 2 ^ 32
    → IsSteady s w
    → (is_running s ≡ true → is_running o ≡ true → (txn_of s == txn_of o) ≡ false)
    → IsSteady o w
    → IsSteady o (act a s w).1
other-IsSteady a s o w n h d g = record {
  connected = g.connected;
  idle = g.idle;
  locked = λ x. elim (Bool-cases (is_running s)) [
    | inl y ↦
        Effect-IsLocked (txn_of s) o.manager o.standing w.locks (act a s w).1.locks (d y x)
          (steady-Effect a s w h) (g.locked x)
    | inr y ↦ rw (act_idle-locks a s w y (h.idle y)) (g.locked x)
  ];
  numbered = λ x. omega (arith, g.numbered x, (act-Follows a s w n h).grows);
}

module _ (a : Act) (i : ℕ) (v : World) (r : IsRepeatable a) (n : v.shared.next_txn_id + 1 < 2 ^ 32)
    (h : IsOrderly v) where
  apart :
      (j : ℕ)
      → (i == j) ≡ false
      → is_running (v.sessions i) ≡ true
      → is_running (v.sessions j) ≡ true
      → (txn_of (v.sessions i) == txn_of (v.sessions j)) ≡ false
  apart j d x y = elim (Bool-cases (txn_of (v.sessions i) == txn_of (v.sessions j))) [
    | inr b ↦ b
    | inl b ↦ absurd (cc (d, (==_iff i j).1 (h.distinct i j x y ((==_iff _ _).0 b))))
  ]

  IsSteady-after :
      (j : ℕ)
      → IsSteady
          (update i (act a (v.sessions i) v.shared).0 v.sessions j)
          (act a (v.sessions i) v.shared).1
  unfolding update
  IsSteady-after j =
      if_both (λ (x : Session). IsSteady x (act a (v.sessions i) v.shared).1) (i == j) _ _
        (λ b. act-IsSteady a (v.sessions i) v.shared r n h.cells (h.steady i))
        (λ b.
          other-IsSteady a (v.sessions i) (v.sessions j) v.shared n (h.steady i) (apart j b)
            (h.steady j))

  -- The session that moved, and another.
  moved_apart :
      (j : ℕ)
      → (i == j) ≡ false
      → is_running (act a (v.sessions i) v.shared).0 ≡ true
      → is_running (v.sessions j) ≡ true
      → txn_of (act a (v.sessions i) v.shared).0 ≡ txn_of (v.sessions j)
      → ⊥
  moved_apart j d x y e =
      elim ((act-Follows a (v.sessions i) v.shared n (h.steady i)).same_or_new x) [
        | inl (z, f) ↦
            cc (
              apart j d z y,
              (==_iff (txn_of (v.sessions i)) (txn_of (v.sessions j))).1 (sym f ∙ e),
            )
        | inr f ↦ absurd (omega (arith, (h.steady j).numbered y, e, f))
      ]

  distinct_after :
      (p q : ℕ)
      → is_running (update i (act a (v.sessions i) v.shared).0 v.sessions p) ≡ true
      → is_running (update i (act a (v.sessions i) v.shared).0 v.sessions q) ≡ true
      → txn_of (update i (act a (v.sessions i) v.shared).0 v.sessions p)
        ≡ txn_of (update i (act a (v.sessions i) v.shared).0 v.sessions q)
      → p ≡ q
  unfolding update
  distinct_after p q =
      let x = (act a (v.sessions i) v.shared).0 in
      let P : Session → Session → Type 0 =
        λ s o. is_running s ≡ true → is_running o ≡ true → txn_of s ≡ txn_of o → p ≡ q in
      if_both (λ s. P s (if i == q then x else v.sessions q)) (i == p) _ _
        (λ b.
          if_both (P x) (i == q) _ _ (λ c k l m. sym ((==_iff i p).0 b) ∙ (==_iff i q).0 c)
            (λ c k l m. absurd (moved_apart q c k l m)))
        (λ b.
          if_both (P (v.sessions p)) (i == q) _ _ (λ c k l m. absurd (moved_apart p b l k (sym m)))
            (λ c. h.distinct p q))

  acts-IsOrderly : IsOrderly (move (acts i a) v)
  unfolding move
  acts-IsOrderly = record {
    steady = IsSteady-after;
    distinct = distinct_after;
    sound =
        Effect-IsSound (txn_of (v.sessions i)) v.shared.locks
          (act a (v.sessions i) v.shared).1.locks
          (steady-Effect a (v.sessions i) v.shared (h.steady i)) h.sound;
    cells =
        Effect-IsNumbered (txn_of (v.sessions i)) v.shared.locks
          (act a (v.sessions i) v.shared).1.locks
          (steady-Effect a (v.sessions i) v.shared (h.steady i)) h.cells;
  }

-- The worker touches the log only.
flushes-IsOrderly : (v : World) → IsOrderly v → IsOrderly (move flushes v)
unfolding move
flushes-IsOrderly v h = elim (Option-cases (flush_once true v.shared.wal)) [
  | inl e ↦ rw (e, move) h
  | inr (wal, e) ↦
      rw (e, move)
        (record {
          steady = λ i. record {
            connected = (h.steady i).connected;
            idle = (h.steady i).idle;
            locked = (h.steady i).locked;
            numbered = (h.steady i).numbered;
          };
          distinct = h.distinct;
          sound = h.sound;
          cells = h.cells;
        })
]

-- No transaction of the move is at the weaker level.
abbrev pub AtRepeatable : Move → Type 0
AtRepeatable (acts i a) = IsRepeatable a
AtRepeatable flushes = Unit

pub move-IsOrderly :
    (x : Move) (v : World)
    → AtRepeatable x
    → v.shared.next_txn_id + 1 < 2 ^ 32
    → IsOrderly v
    → IsOrderly (move x v)
move-IsOrderly (acts i a) v r n h = acts-IsOrderly a i v r n h
move-IsOrderly flushes v r n h = flushes-IsOrderly v h

pub move-next :
    (x : Move) (v : World)
    → v.shared.next_txn_id + 1 < 2 ^ 32
    → IsOrderly v
    → (move x v).shared.next_txn_id ≤ v.shared.next_txn_id + 1
unfolding move
move-next (acts i a) v n h = (act-Follows a (v.sessions i) v.shared n (h.steady i)).slowly
move-next flushes v n h = elim (Option-cases (flush_once true v.shared.wal)) [
  | inl e ↦ rw (move, e) (omega arith)
  | inr (wal, e) ↦ rw (move, e) (omega arith)
]

pub run_moves-IsOrderly :
    (xs : List Move) (v : World)
    → All AtRepeatable xs
    → v.shared.next_txn_id + length xs < 2 ^ 32
    → IsOrderly v
    → IsOrderly (run_moves xs v)
      × ((run_moves xs v).shared.next_txn_id ≤ v.shared.next_txn_id + length xs)
unfolding run_moves
run_moves-IsOrderly [] v r n h = (h, omega arith)
run_moves-IsOrderly (x ∷ xs) v (a, r) n h =
    let less = move-next x v (omega (arith, n)) h in
    let (g, m) =
      run_moves-IsOrderly xs (move x v) r (omega (arith, n, less))
        (move-IsOrderly x v a (omega (arith, n)) h) in
    (g, omega (arith, m, less))

pub new_world-IsOrderly : IsOrderly new_world
unfolding new_world new_manager set_global_references
new_world-IsOrderly = record {
  steady = λ i. record {
    connected = record {
      server_set = refl;
      store_set = refl;
      lock_manager_set = refl;
      wal_set = refl;
      group_commit_set = refl;
    };
    idle = λ x. refl;
    locked = λ x. absurd (cc x);
    numbered = λ x. absurd (cc x);
  };
  distinct = λ i j x y e. absurd (cc x);
  sound = initial-IsSound;
  cells = initial-IsNumbered;
}
