-- ===== src/World/Races.antt =====
-- src/core/store.cpp without its lock: `get`, `put` and `delete_key` take no mutex, so two calls at
-- one time, one of which writes, are a data race, and what the program then does is undefined. A
-- step of a session is here an interval, from where its thread enters it to where it leaves it, and
-- other threads go on meanwhile. A run in which such calls meet has no result.
pub mod Moves
pub mod Freedom
use concurrent_transactional.Prelude.{
  ℕ, ◌==◌, Bool, true, false, Option, none, some, List, [], ◌∷◌, is_empty, ◌>>=◌, if◌then◌else◌,
}
use concurrent_transactional.Prelude.Map.{Map}
use concurrent_transactional.Transaction.{Shared}
use concurrent_transactional.World.{
  Standing, ready, for_lock, for_flush, applying, Session, Act, starts, requests, resumes, commits,
  passes, applies, aborts, act, World, Move, acts, flushes, move, new_world,
}
use concurrent_transactional.World.Serial.{Journal, blank, read_by, look, note}

-- What a step does in the table.
pub data Access : Type 0 where
  untouched reading writing : Access

abbrev pub clash : Access → Access → Bool
clash untouched a = false
clash reading untouched = false
clash reading reading = false
clash reading writing = true
clash writing untouched = false
clash writing reading = true
clash writing writing = true

abbrev pub merge : Access → Access → Access
merge untouched a = a
merge reading untouched = reading
merge reading reading = reading
merge reading writing = writing
merge writing a = writing

-- `put` and `delete_key` are called by a round that applies an entry.
abbrev pub written_by : Act → Standing → Access
written_by applies (applying []) = untouched
written_by applies (applying (entry ∷ rest)) = writing
written_by applies ready = untouched
written_by applies (for_lock r cell) = untouched
written_by applies (for_flush lsn) = untouched
written_by (starts level) p = untouched
written_by (requests r) p = untouched
written_by resumes p = untouched
written_by commits p = untouched
written_by passes p = untouched
written_by aborts p = untouched

unfoldable pub access_of : Act → Session → Shared → Access
access_of a s w =
    if is_empty (look (read_by a s.standing) s (act a s w).0 w)
    then written_by a s.standing
    else reading

-- A step that has begun, and what other steps have done in the table since.
pub record Inside : Type 0 where
  pub doing : Act
  pub met : Access

pub record Course : Type 0 where
  pub world : World
  pub journal : Journal
  pub inside : ℕ → Option Inside

pub data Instant : Type 0 where
  enters : ℕ → Act → Instant
  leaves : ℕ → Instant
  flushing : Instant

abbrev pub meet : Access → Option Inside → Option Inside
meet a none = none
meet a (some x) = some (record x { met = merge a x.met })

-- The end of a step: `none` is a data race.
unfoldable pub leave : ℕ → Inside → Course → Option Course
leave i x c =
    let touched = access_of x.doing (c.world.sessions i) c.world.shared in
    if clash touched x.met
    then none
    else some (record {
      world = move (acts i x.doing) c.world;
      journal = note (acts i x.doing) c.world c.journal;
      inside = λ j. if i == j then none else meet touched (c.inside j);
    })

abbrev pub enter : ℕ → Act → (ℕ → Option Inside) → ℕ → Option Inside
enter i a inside j = if i == j then some (record { doing = a; met = untouched }) else inside j

-- A thread in a step enters no other, and leaves none that it is not in.
unfoldable pub happen : Instant → Course → Option Course
happen (enters i a) c = elim (c.inside i) [
  | none ↦ some (record c { inside = enter i a c.inside })
  | some x ↦ some c
]
happen (leaves i) c = elim (c.inside i) [ none ↦ some c | some x ↦ leave i x c ]
happen flushing c =
    some (record c { world = move flushes c.world; journal = note flushes c.world c.journal })

unfoldable pub run_events : List Instant → Course → Option Course
run_events [] c = some c
run_events (e ∷ es) c = do c' ← happen e c; run_events es c'

-- A new server, with every thread outside.
unfoldable pub new_course : Course
new_course = record { world = new_world; journal = blank; inside = λ i. none }
