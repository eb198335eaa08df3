-- ===== src/World/Serial/Histories.antt =====
-- The moves of any sessions keep the ledger, so every run has a serial history.
use concurrent_transactional.Prelude.{
  ℕ, ◌+◌, ◌<◌, ◌^◌, true, List, [], ◌∷◌, length, All, ◌≡◌, inl, inr, refl, sym, subst, arith,
  Option-cases,
}
use concurrent_transactional.Prelude.Map.{bytes_order}
use concurrent_transactional.GroupCommit.{flush_once}
use concurrent_transactional.Transaction.{new_manager, set_global_references}
use concurrent_transactional.World.{
  Standing, ready, for_lock, for_flush, applying, World, Act, starts, requests, resumes, commits,
  passes, applies, aborts, Move, acts, flushes, move, run_moves, new_world,
}
use concurrent_transactional.World.Invariant.{IsOrderly}
use concurrent_transactional.World.Orderly.{
  AtRepeatable, move-next, move-IsOrderly, new_world-IsOrderly,
}
use concurrent_transactional.World.Shapes.{IsMild}
use concurrent_transactional.World.Serial.{Journal, blank, IsSerial, replay, note, run_noted}
use concurrent_transactional.World.Serial.Ledgers.{Ledger}
use concurrent_transactional.World.Serial.Quiet.{quiet-Ledger}
use concurrent_transactional.World.Serial.Rounds.{round-Ledger}
use concurrent_transactional.World.Serial.Ends.{end-Ledger}

module _ (i : ℕ) (v : World) (j : Journal) (h : IsOrderly v) (g : Ledger v j) where
  applies-Ledger :
      (p : Standing)
      → (v.sessions i).standing ≡ p
      → IsOrderly (move (acts i applies) v)
      → Ledger (move (acts i applies) v) (note (acts i applies) v j)
  applies-Ledger ready e h' =
      quiet-Ledger applies i v j h h' (subst (IsMild applies) (sym e) (λ x. x)) g
  applies-Ledger (for_lock r cell) e h' =
      quiet-Ledger applies i v j h h' (subst (IsMild applies) (sym e) (λ x. x)) g
  applies-Ledger (for_flush lsn) e h' =
      quiet-Ledger applies i v j h h' (subst (IsMild applies) (sym e) (λ x. x)) g
  applies-Ledger (applying []) e h' = end-Ledger i v j h g e
  applies-Ledger (applying ((key, entry) ∷ rest)) e h' = round-Ledger i v j h g key entry rest e

  acts-Ledger :
      (a : Act) → IsOrderly (move (acts i a) v) → Ledger (move (acts i a) v) (note (acts i a) v j)
  acts-Ledger (starts level) h' = quiet-Ledger (starts level) i v j h h' tt g
  acts-Ledger (requests r) h' = quiet-Ledger (requests r) i v j h h' tt g
  acts-Ledger resumes h' = quiet-Ledger resumes i v j h h' tt g
  acts-Ledger commits h' = quiet-Ledger commits i v j h h' tt g
  acts-Ledger passes h' = quiet-Ledger passes i v j h h' tt g
  acts-Ledger applies h' = applies-Ledger (v.sessions i).standing refl h'
  acts-Ledger aborts h' = quiet-Ledger aborts i v j h h' tt g

flushes-Ledger : (v : World) (j : Journal) → Ledger v j → Ledger (move flushes v) (note flushes v j)
unfolding move note
flushes-Ledger v j g = elim (Option-cases (flush_once true v.shared.wal)) [
  | inl e ↦ rw (e, move) g
  | inr (wal, e) ↦ rw (e, move) (record { serial = g.serial; parts = g.parts; table = g.table })
]

move-Ledger :
    (x : Move) (v : World) (j : Journal)
    → IsOrderly v
    → IsOrderly (move x v)
    → Ledger v j
    → Ledger (move x v) (note x v j)
move-Ledger (acts i a) v j h h' g = acts-Ledger i v j h g a h'
move-Ledger flushes v j h h' g = flushes-Ledger v j g

run_noted-Ledger :
    (xs : List Move) (v : World) (j : Journal)
    → All AtRepeatable xs
    → v.shared.next_txn_id + length xs < 2 ^ 32
    → IsOrderly v
    → Ledger v j
    → Ledger (run_moves xs v) (run_noted xs v j)
unfolding run_moves run_noted
run_noted-Ledger [] v j r n h g = g
run_noted-Ledger (x ∷ xs) v j (a, r) n h g =
    let h' = move-IsOrderly x v a (omega (arith, n)) h in
    run_noted-Ledger xs (move x v) (note x v j) r
      (omega (arith, n, move-next x v (omega (arith, n)) h)) h' (move-Ledger x v j h h' g)

new_world-Ledger : Ledger new_world blank
unfolding new_world new_manager set_global_references blank replay IsSerial
new_world-Ledger = record {
  serial = tt;
  parts = λ i. record { reads_hold = λ r. tt; in_order = tt; halfway = λ rest e. absurd (cc e) };
  table = λ k. inl refl;
}

-- Any moves on a new server.
pub run-Ledger :
    (xs : List Move)
    → All AtRepeatable xs
    → 1 + length xs < 2 ^ 32
    → Ledger (run_moves xs new_world) (run_noted xs new_world blank)
unfolding new_world
run-Ledger xs r n =
    run_noted-Ledger xs new_world blank r (omega (arith, n)) new_world-IsOrderly new_world-Ledger
