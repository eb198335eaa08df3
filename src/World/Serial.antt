-- ===== src/World/Serial.antt =====
-- What the transactions of several sessions have read and written, as a history in the order of
-- their commits, and what it is for a history to be that of the same transactions one after another.
pub mod Buffers
pub mod Parts
pub mod Reads
pub mod Ledgers
pub mod Quiet
pub mod Rounds
pub mod Ends
pub mod Histories
use concurrent_transactional.Prelude.{
  ℕ, ◌==◌, Bytes, Bool, true, false, ◌&&◌, Option, none, some, List, [], ◌∷◌, ◌++◌, ◌≡◌, All,
  if◌then◌else◌,
}
use concurrent_transactional.Prelude.Map.{Map, lookup, bytes_order}
use concurrent_transactional.Store.{Store, empty, get}
use concurrent_transactional.Transaction.Replies.{Status}
use concurrent_transactional.Transaction.{Shared, Manager, apply_pending, finish_get}
use concurrent_transactional.World.{
  Request, writes, reads, Standing, is_ready, ready, for_lock, for_flush, applying, Session, World,
  Act, starts, requests, resumes, commits, passes, applies, aborts, act, Move, acts, flushes, move,
}
use concurrent_transactional.World.Orderly.{is_running}
use concurrent_transactional.World.Held.{pending_of}

-- A key that was read, with the status and the value that `get` answered.
abbrev pub Answered : Type 0
Answered = Bytes × (Status × Bytes)

-- A transaction that has committed: its reads that went to the table, and what it wrote.
pub record Committed : Type 0 where
  pub observed : List Answered
  pub written : Map Bytes (Bytes × Bool)

-- The reads of the transaction at work in each session, and the commits, the last one first.
pub record Journal : Type 0 where
  pub seen : ℕ → List Answered
  pub history : List Committed

unfoldable pub blank : Journal
blank = record { seen = λ i. []; history = [] }

abbrev pub awaited : Standing → Option Bytes
awaited ready = none
awaited (for_lock (writes key entry) cell) = none
awaited (for_lock (reads key) cell) = some key
awaited (for_flush lsn) = none
awaited (applying rest) = none

-- The key that a step reads, if it gets that far.
abbrev pub read_by : Act → Standing → Option Bytes
read_by (starts level) p = none
read_by (requests (writes key entry)) p = none
read_by (requests (reads key)) p = some key
read_by resumes p = awaited p
read_by commits p = none
read_by passes p = none
read_by applies p = none
read_by aborts p = none

abbrev pub is_unset : Option (Bytes × Bool) → Bool
is_unset none = true
is_unset (some entry) = false

-- What `get` answers, the rest of it run with its lock.
unfoldable pub reply_to : Bytes → Manager → Shared → Status × Bytes
reply_to key m w = let ((m', w', status), value) = finish_get key true m w in (status, value)

-- A read that has got its lock answers from the table, unless the transaction has written the key.
unfoldable pub look : Option Bytes → Session → Session → Shared → List Answered
look none s x w = []
look (some key) s x w =
    if is_ready x.standing && (is_running x && is_unset (lookup key (pending_of s)))
    then (key, reply_to key s.manager w) ∷ []
    else []

-- A commit ends with the step that finds nothing more to apply.
unfoldable pub end_of : Act → Standing → Committed → List Committed → List Committed
end_of applies (applying []) c cs = c ∷ cs
end_of applies (applying (entry ∷ rest)) c cs = cs
end_of applies ready c cs = cs
end_of applies (for_lock r cell) c cs = cs
end_of applies (for_flush lsn) c cs = cs
end_of (starts level) p c cs = cs
end_of (requests r) p c cs = cs
end_of resumes p c cs = cs
end_of commits p c cs = cs
end_of passes p c cs = cs
end_of aborts p c cs = cs

unfoldable pub seen_next : Act → Session → Shared → List Answered → List Answered
seen_next a s w seen =
    look (read_by a s.standing) s (act a s w).0 w ++ (if is_running s then seen else [])

unfoldable pub note : Move → World → Journal → Journal
note (acts i a) v j =
    let s = v.sessions i in
    record {
      seen = λ k. if i == k then seen_next a s v.shared (j.seen i) else j.seen k;
      history =
          end_of a s.standing (record { observed = j.seen i; written = pending_of s }) j.history;
    }
note flushes v j = j

-- The journal that is kept while the moves are made.
unfoldable pub run_noted : List Move → World → Journal → Journal
run_noted [] v j = j
run_noted (x ∷ xs) v j = run_noted xs (move x v) (note x v j)

-- The table after the transactions, one after another on an empty table.
unfoldable pub replay : List Committed → Store
replay [] = empty
replay (c ∷ cs) = apply_pending c.written (replay cs)

-- The answer to a read of what the table has at a key.
unfoldable pub answer_from : Option Bytes → Status × Bytes
answer_from none = (Status.not_found, [])
answer_from (some value) = (Status.success, value)

-- Every transaction is answered from what the ones before it have left.
unfoldable pub IsSerial : List Committed → Type 0
IsSerial [] = Unit
IsSerial (c ∷ cs) = All (λ p. answer_from (get p.0 (replay cs)) ≡ p.1) c.observed × IsSerial cs
