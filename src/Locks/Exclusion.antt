-- ===== src/Locks/Exclusion.antt =====
-- Who holds a lock, after any history of calls.
use concurrent_transactional.Prelude.{
  ℕ, Bytes, true, false, List, [], ◌∷◌, length, All, ◌≡◌, ◌≢◌, arith, Bool-cases, inl, inr,
  if◌then◌else◌,
}
use concurrent_transactional.Types.{LockMode, is_none}
use concurrent_transactional.Locks.Entry.{contains}
use concurrent_transactional.Locks.Consistent.{Grants}
use concurrent_transactional.Locks.{Locks, initial, entry_in, has_lock}
use concurrent_transactional.Locks.History.{Event, AsksLock, run, run-IsSound, initial-IsSound}

pub has_lock-entry_in :
    (t : ℕ) (k : Bytes) (l : Locks)
    → has_lock t k l ≡ (
        if contains t (entry_in k l.table).holders
        then (entry_in k l.table).current_mode
        else LockMode.none)
unfolding has_lock entry_in contains
has_lock-entry_in t k l = ground arith

pub single_holder :
    (a b : ℕ) (hs : List ℕ) → length hs ≡ 1 → contains a hs ≡ true → contains b hs ≡ true → a ≡ b
unfolding contains
single_holder a b [] h p q = absurd (omega arith)
single_holder a b (x ∷ []) h p q = ground arith
single_holder a b (x ∷ y ∷ hs) h p q = absurd (omega arith)

-- After any history of requests for a lock, ends of waits and releases, from the empty lock table,
-- a transaction that holds a key in exclusive mode is the only one that holds the key.
pub exclusive_alone :
    (es : List Event) (a b : ℕ) (key : Bytes)
    → All AsksLock es
    → has_lock a key (run initial es) ≡ LockMode.exclusive
    → has_lock b key (run initial es) ≢ LockMode.none
    → a ≡ b
exclusive_alone es a b key asked ha hb =
    let l = run initial es in
    let e = entry_in key l.table in
    let sound = (run-IsSound initial es asked initial-IsSound).at key in
    elim (Bool-cases (contains a e.holders)) [
      | inr out ↦ cc (has_lock-entry_in a key l, out)
      | inl held ↦ elim (Bool-cases (contains b e.holders)) [
        | inr out ↦ absurd (hb (rw has_lock-entry_in (rw out)))
        | inl also ↦
            single_holder a b e.holders
              (exclusive_single e.current_mode e.holders sound.grants
                (ground (arith, has_lock-entry_in a key l)))
              held also
      ]
    ]
  where
    exclusive_single :
        (m : LockMode) (hs : List ℕ) → Grants m hs → m ≡ LockMode.exclusive → length hs ≡ 1
    exclusive_single LockMode.none hs g e = cc
    exclusive_single LockMode.shared hs g e = cc
    exclusive_single LockMode.exclusive hs g e = g

contains_first : (x : ℕ) (hs : List ℕ) → contains x (x ∷ hs) ≡ true
unfolding contains
contains_first x hs = ground arith

some_holder :
    (m : LockMode) (hs : List ℕ)
    → Grants m hs
    → is_none m ≡ false
    → (t : ℕ) × (contains t hs ≡ true)
some_holder LockMode.none hs g h = cc
some_holder LockMode.shared [] g h = cc
some_holder LockMode.shared (x ∷ hs) g h = (x, contains_first x hs)
some_holder LockMode.exclusive [] g h = absurd (omega arith)
some_holder LockMode.exclusive (x ∷ hs) g h = (x, contains_first x hs)

-- After any history of requests for a lock, ends of waits and releases, from the empty lock table,
-- a key for which somebody waits is held by some transaction: a free lock has no waiters.
pub waiters_have_holder :
    (es : List Event) (key : Bytes)
    → All AsksLock es
    → (entry_in key (run initial es).table).wait_queue ≢ []
    → (t : ℕ) × (has_lock t key (run initial es) ≢ LockMode.none)
waiters_have_holder es key asked waits =
    let l = run initial es in
    let e = entry_in key l.table in
    let sound = (run-IsSound initial es asked initial-IsSound).at key in
    elim (Bool-cases (is_none e.current_mode)) [
      | inl free ↦ absurd (waits (sound.idle free))
      | inr held ↦
          let (t, holds) = some_holder e.current_mode e.holders sound.grants held in
          (t, λ h. not_none e.current_mode held (holder_mode t key l holds h))
    ]
  where
    not_none : (m : LockMode) → is_none m ≡ false → m ≢ LockMode.none
    not_none LockMode.none h = cc
    not_none LockMode.shared h = λ e. cc
    not_none LockMode.exclusive h = λ e. cc

    holder_mode :
        (t : ℕ) (k : Bytes) (l : Locks)
        → contains t (entry_in k l.table).holders ≡ true
        → has_lock t k l ≡ LockMode.none
        → (entry_in k l.table).current_mode ≡ LockMode.none
    holder_mode t k l h n = ground (arith, has_lock-entry_in t k l)
