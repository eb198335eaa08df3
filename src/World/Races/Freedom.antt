-- ===== src/World/Races/Freedom.antt =====
-- What the locks give to a run in which no calls of the table meet.
use concurrent_transactional.Prelude.{
  ℕ, ◌+◌, ◌<◌, ◌≤◌, ◌^◌, ◌==◌, Bytes, true, false, Option, none, some, List, [], ◌∷◌, length, All,
  ◌≡◌, ◌⊎◌, arith, sym, subst, ap, ◌∙◌, Bool-cases, inl, inr, ==_iff,
}
use concurrent_transactional.Prelude.Map.{lookup, bytes_order}
use concurrent_transactional.Types.{LockMode}
use concurrent_transactional.Store.{get}
use concurrent_transactional.World.{Move, run_moves, new_world}
use concurrent_transactional.World.Invariant.{IsOrderly}
use concurrent_transactional.World.Orderly.{
  is_running, AtRepeatable, run_moves-IsOrderly, new_world-IsOrderly,
}
use concurrent_transactional.World.Isolation.{IsOther, run_moves-get}
use concurrent_transactional.World.Serial.{IsSerial, replay}
use concurrent_transactional.World.Serial.Ledgers.{Ledger, IsWriting}
use concurrent_transactional.World.Serial.Histories.{run-Ledger}
use concurrent_transactional.World.Races.{
  Inside, Course, Instant, enters, leaves, flushing, run_events, new_course,
}
use concurrent_transactional.World.Races.Moves.{Of, Within, IsKind, Trace, run_events-Trace}

-- The event begins no transaction at the weaker level.
abbrev pub BeginsRepeatable : Instant → Type 0
BeginsRepeatable = IsKind AtRepeatable

-- The event is not one by which the session enters a step.
abbrev pub EntersOther : ℕ → Instant → Type 0
EntersOther j = IsKind (IsOther j)

new_course-Trace :
    (es : List Instant) (c : Course)
    → All BeginsRepeatable es
    → run_events es new_course ≡ some c
    → Trace AtRepeatable new_course c (length es)
unfolding new_course
new_course-Trace es c r e = run_events-Trace AtRepeatable es new_course c r (λ i. tt) e

course-Ledger :
    (es : List Instant) (c : Course)
    → All BeginsRepeatable es
    → 1 + length es < 2 ^ 32
    → run_events es new_course ≡ some c
    → Ledger c.world c.journal
unfolding new_course
course-Ledger es c r n e =
    let p = new_course-Trace es c r e in
    let ledger = run-Ledger p.moves p.kinds (omega (arith, n, p.few)) in
    subst (λ v. Ledger v c.journal) (sym p.world_after)
      (subst (Ledger (run_moves p.moves new_world)) (sym p.journal_after) ledger)

-- Every run without a data race is serializable. Take any events of any sessions on a new server,
-- fewer than 2^32 and every transaction at REPEATABLE_READ: steps that are entered and left in any
-- order, whatever the waits for locks and however the rounds in which several commits apply their
-- buffers lie among each other. If in none of them two calls of the table meet of which one writes, the
-- program not preventing that, then replay the transactions that have committed one after another on
-- an empty table, in the order in which their commits ended: every read of theirs that went to the
-- table in the run was answered, status and value, as the table of the replay answers it at the turn
-- of its transaction.
pub serializable :
    (es : List Instant) (c : Course)
    → All BeginsRepeatable es
    → 1 + length es < 2 ^ 32
    → run_events es new_course ≡ some c
    → IsSerial c.journal.history
serializable es c r n e = (course-Ledger es c r n e).serial

-- The table is that of the serial replay. After any events of any sessions on a new server, fewer
-- than 2^32, every transaction at REPEATABLE_READ, and with no data race on the table, the table has
-- at each key what the committed transactions leave there when they are replayed one after another,
-- or a session is at the moment applying a buffer that has the key.
pub table_replayed :
    (es : List Instant) (c : Course) (k : Bytes)
    → All BeginsRepeatable es
    → 1 + length es < 2 ^ 32
    → run_events es new_course ≡ some c
    → (get k c.world.shared.store ≡ get k (replay c.journal.history))
      ⊎ ((i : ℕ) × IsWriting k (c.world.sessions i))
table_replayed es c k r n e = (course-Ledger es c r n e).table k

-- A move of another session at the strong level.
abbrev Both : ℕ → Move → Type 0
Both j x = AtRepeatable x × IsOther j x

All-Both : (j : ℕ) (xs : List Move) → All (Both j) xs → All AtRepeatable xs × All (IsOther j) xs
All-Both j [] h = (tt, tt)
All-Both j (x ∷ xs) ((a, b), h) = let (r, o) = All-Both j xs h in ((a, r), (b, o))

events-Both :
    (j : ℕ) (es : List Instant)
    → All BeginsRepeatable es
    → All (EntersOther j) es
    → All (IsKind (Both j)) es
events-Both j [] r o = tt
events-Both j (enters i a ∷ es) (x, r) (y, o) = ((x, y), events-Both j es r o)
events-Both j (leaves i ∷ es) (x, r) (y, o) = (tt, events-Both j es r o)
events-Both j (flushing ∷ es) (x, r) (y, o) = ((x, y), events-Both j es r o)

-- No step that has begun is the session's.
Within-Both : (j : ℕ) (c : Course) → Within AtRepeatable c → c.inside j ≡ none → Within (Both j) c
Within-Both j c w e i = elim (Bool-cases (i == j)) [
  | inl b ↦ nothing (c.inside i) (ap c.inside ((==_iff i j).0 b) ∙ e)
  | inr b ↦ another (c.inside i) (w i) b
]
  where
    nothing : (x : Option Inside) → x ≡ none → Of (Both j) i x
    nothing none f = tt
    nothing (some x) f = absurd (cc f)

    another : (x : Option Inside) → Of AtRepeatable i x → (i == j) ≡ false → Of (Both j) i x
    another none o b = tt
    another (some x) o b = (o, b)

-- Reads repeat. After any events of any sessions on a new server, let a session be in no step and
-- have an active transaction that has locked a key, by a read or by a write. While it enters no step,
-- the table keeps its value at that key, whatever steps the other sessions and the flush worker
-- make. There are fewer than 2^32 events, every transaction is at REPEATABLE_READ, and no two calls
-- of the table meet of which one writes, which the program does not prevent.
pub reads_repeat :
    (xs ys : List Instant) (c d : Course) (j : ℕ) (k : Bytes) (mode : LockMode)
    → All BeginsRepeatable xs
    → All BeginsRepeatable ys
    → All (EntersOther j) ys
    → 1 + (length xs + length ys) < 2 ^ 32
    → run_events xs new_course ≡ some c
    → run_events ys c ≡ some d
    → c.inside j ≡ none
    → is_running (c.world.sessions j) ≡ true
    → lookup k (c.world.sessions j).manager.current_txn.locks_held ≡ some mode
    → get k d.world.shared.store ≡ get k c.world.shared.store
unfolding new_course new_world
reads_repeat xs ys c d j k mode r q o n e f out y l =
    let p = new_course-Trace xs c r e in
    let g =
      run_events-Trace (Both j) ys c d (events-Both j ys q o) (Within-Both j c p.within out) f in
    let (h, m) =
      run_moves-IsOrderly p.moves new_world p.kinds (omega (arith, n, p.few)) new_world-IsOrderly in
    let kinds = All-Both j g.moves g.kinds in
    let orderly = subst IsOrderly (sym p.world_after) h in
    let next = subst (λ v. v.shared.next_txn_id ≤ 1 + length p.moves) (sym p.world_after) m in
    ap (λ v. get k v.shared.store) g.world_after
    ∙ run_moves-get g.moves c.world j k mode kinds.0 kinds.1 (omega (arith, n, p.few, g.few, next))
        orderly y l
