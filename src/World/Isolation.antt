-- ===== src/World/Isolation.antt =====
-- What the locks keep apart: the table at a locked key, and pending writes, from other sessions.
use concurrent_transactional.Prelude.{
  ℕ, ◌+◌, ◌<◌, ◌^◌, ◌==◌, ==_iff, Bytes, Bool, true, false, List, [], ◌∷◌, length, All, ◌≡◌, refl,
  arith, sym, subst, ◌∙◌, inl, inr, some, none, Option-cases,
}
use concurrent_transactional.Prelude.Map.{lookup, bytes_order}
use concurrent_transactional.Types.{LockMode}
use concurrent_transactional.Store.{get}
use concurrent_transactional.Locks.{entry_in}
use concurrent_transactional.GroupCommit.{flush_once}
use concurrent_transactional.World.{World, update, Move, acts, flushes, move, run_moves, new_world}
use concurrent_transactional.World.Invariant.{IsOrderly}
use concurrent_transactional.World.Orderly.{
  is_running, txn_of, AtRepeatable, move-next, move-IsOrderly, run_moves-IsOrderly,
  new_world-IsOrderly,
}
use concurrent_transactional.World.Writes.{lookup-Holds, same_holder, act-Untouched}

-- The move is not the session's.
abbrev pub IsOther : ℕ → Move → Type 0
IsOther j (acts i a) = (i == j) ≡ false
IsOther j flushes = Unit

-- The table at a key that session `j` has locked, after a move of another.
move-get :
    (x : Move) (v : World) (j : ℕ) (k : Bytes) (mode : LockMode)
    → IsOrderly v
    → IsOther j x
    → is_running (v.sessions j) ≡ true
    → lookup k (v.sessions j).manager.current_txn.locks_held ≡ some mode
    → get k (move x v).shared.store ≡ get k v.shared.store
unfolding move
move-get (acts i a) v j k mode h o y e =
    elim (act-Untouched a k (v.sessions i) v.shared (h.steady i)) [
      | inl same ↦ same
      | inr (z, g) ↦ absurd (
          cc (
            o,
            (==_iff i j).1 (
                h.distinct i j z y (
                  same_holder (txn_of (v.sessions i)) (txn_of (v.sessions j))
                    (entry_in k v.shared.locks.table) (h.sound.at k) g
                    (lookup-Holds (txn_of (v.sessions j)) LockMode.shared v.shared.locks k mode
                      (v.sessions j).manager.current_txn.locks_held ((h.steady j).locked y).reads
                      e))),
          ))
    ]
move-get flushes v j k mode h o y e = elim (Option-cases (flush_once true v.shared.wal)) [
  | inl f ↦ rw (move, f) refl
  | inr (wal, f) ↦ rw (move, f) refl
]

move-sessions : (x : Move) (v : World) (j : ℕ) → IsOther j x → (move x v).sessions j ≡ v.sessions j
unfolding move update
move-sessions (acts i a) v j o = rw o refl
move-sessions flushes v j o = elim (Option-cases (flush_once true v.shared.wal)) [
  | inl f ↦ rw (move, f) refl
  | inr (wal, f) ↦ rw (move, f) refl
]

-- Through any moves of others.
pub run_moves-get :
    (ys : List Move) (v : World) (j : ℕ) (k : Bytes) (mode : LockMode)
    → All AtRepeatable ys
    → All (IsOther j) ys
    → v.shared.next_txn_id + length ys < 2 ^ 32
    → IsOrderly v
    → is_running (v.sessions j) ≡ true
    → lookup k (v.sessions j).manager.current_txn.locks_held ≡ some mode
    → get k (run_moves ys v).shared.store ≡ get k v.shared.store
unfolding run_moves
run_moves-get [] v j k mode r o n h y e = refl
run_moves-get (x ∷ ys) v j k mode (a, r) (b, o) n h y e =
    let same = move-sessions x v j b in
    run_moves-get ys (move x v) j k mode r o (omega (arith, n, move-next x v (omega (arith, n)) h))
      (move-IsOrderly x v a (omega (arith, n)) h) (subst (λ s. is_running s ≡ true) (sym same) y)
      (subst (λ s. lookup k s.manager.current_txn.locks_held ≡ some mode) (sym same) e)
    ∙ move-get x v j k mode h b y e

pub same_locker :
    (v : World) (i j : ℕ) (k : Bytes) (entry : Bytes × Bool) (mode : LockMode)
    → IsOrderly v
    → is_running (v.sessions i) ≡ true
    → is_running (v.sessions j) ≡ true
    → lookup k (v.sessions i).manager.current_txn.pending_buffer ≡ some entry
    → lookup k (v.sessions j).manager.current_txn.locks_held ≡ some mode
    → i ≡ j
same_locker v i j k entry mode h x y e f = h.distinct i j x y (
    same_holder (txn_of (v.sessions i)) (txn_of (v.sessions j)) (entry_in k v.shared.locks.table)
      (h.sound.at k)
      (lookup-Holds (txn_of (v.sessions i)) LockMode.exclusive v.shared.locks k entry
        (v.sessions i).manager.current_txn.pending_buffer ((h.steady i).locked x).writes e)
      (lookup-Holds (txn_of (v.sessions j)) LockMode.shared v.shared.locks k mode
        (v.sessions j).manager.current_txn.locks_held ((h.steady j).locked y).reads f))

-- Writes exclude. After any moves of any sessions on a new server, fewer than 2^32 and every
-- transaction at REPEATABLE_READ: a key that the active transaction of one session has written and
-- not yet committed is not among the keys that the active transaction of another has locked.
pub writes_exclude :
    (xs : List Move) (i j : ℕ) (k : Bytes) (entry : Bytes × Bool)
    → All AtRepeatable xs
    → 1 + length xs < 2 ^ 32
    → (i == j) ≡ false
    → is_running ((run_moves xs new_world).sessions i) ≡ true
    → is_running ((run_moves xs new_world).sessions j) ≡ true
    → lookup k ((run_moves xs new_world).sessions i).manager.current_txn.pending_buffer ≡ some entry
    → lookup k ((run_moves xs new_world).sessions j).manager.current_txn.locks_held ≡ none
unfolding new_world
writes_exclude xs i j k entry r n d x y e =
    let v = run_moves xs new_world in
    let h = (run_moves-IsOrderly xs new_world r (omega (arith, n)) new_world-IsOrderly).0 in
    elim (Option-cases (lookup k (v.sessions j).manager.current_txn.locks_held)) [
      | inl f ↦ f
      | inr (mode, f) ↦ absurd (cc (d, (==_iff i j).1 (same_locker v i j k entry mode h x y e f)))
    ]
