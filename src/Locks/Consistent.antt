-- ===== src/Locks/Consistent.antt =====
-- Well-formed lock entries, and that every operation on an entry keeps them so.
use concurrent_transactional.Prelude.{
  ℕ, ◌==◌, true, false, ◌&&◌, ◌||◌, List, [], ◌∷◌, ◌++◌, length, is_empty, All, All-append, ◌≡◌,
  refl, arith, Bool-cases, inl, inr, subst, sym,
}
use concurrent_transactional.Types.{LockMode, is_none, is_shared, is_exclusive}
use concurrent_transactional.Locks.Entry.{
  Cells, Waiter, LockEntry, fresh, contains, add, remove, is_compatible, grant_mode, upgrade,
  request_entry, without_txn, drop_waiters, set_granted, serve, process_waiters, release_entry,
}

-- Waiters ask for a lock that excludes somebody.
abbrev pub Asks : List Waiter → Type 0
Asks = All (λ w. is_none w.requested_mode ≡ false)

-- The holders that go with a mode: none, at least one, or exactly one.
abbrev pub Grants : LockMode → List ℕ → Type 0
Grants LockMode.none holders = holders ≡ []
Grants LockMode.shared holders = is_empty holders ≡ false
Grants LockMode.exclusive holders = length holders ≡ 1

pub record IsConsistent (e : LockEntry) : Type 0 where
  pub grants : Grants e.current_mode e.holders
  pub idle : is_none e.current_mode ≡ true → e.wait_queue ≡ []
  pub asks : Asks e.wait_queue

pub fresh-IsConsistent : IsConsistent fresh
fresh-IsConsistent = record { grants = refl; idle = λ h. refl; asks = tt }

add_nonempty : (t : ℕ) (xs : List ℕ) → is_empty (add t xs) ≡ false
unfolding add
add_nonempty t [] = refl
add_nonempty t (x ∷ xs) = ground arith

remove_single :
    (t : ℕ) (xs : List ℕ)
    → length xs ≡ 1
    → is_empty (remove t xs) ≡ false
    → length (remove t xs) ≡ 1
unfolding remove
remove_single t [] h g = absurd (omega arith)
remove_single t (x ∷ []) h g = ground arith
remove_single t (x ∷ y ∷ xs) h g = absurd (omega arith)

pub Asks-without_txn : (t : ℕ) (q : List Waiter) → Asks q → Asks (without_txn t q)
unfolding without_txn
Asks-without_txn t [] h = tt
Asks-without_txn t (w ∷ q) h = ground (arith, Asks-without_txn t q)

Asks-enqueue :
    (q : List Waiter) (w : Waiter) → Asks q → is_none w.requested_mode ≡ false → Asks (q ++ w ∷ [])
Asks-enqueue q w hq hw = All-append (λ v. is_none v.requested_mode ≡ false) q (w ∷ []) hq (hw, tt)

Grants-grant :
    (t : ℕ) (mode asked : LockMode) (holders : List ℕ)
    → Grants mode holders
    → is_none asked ≡ false
    → is_compatible mode asked ≡ true
    → Grants (grant_mode mode asked) (add t holders)
unfolding is_compatible grant_mode
Grants-grant t LockMode.none LockMode.none holders g a c = cc
Grants-grant t LockMode.none LockMode.shared holders g a c = add_nonempty t holders
Grants-grant t LockMode.none LockMode.exclusive holders g a c = rw g (unfold add in refl)
Grants-grant t LockMode.shared LockMode.none holders g a c = cc
Grants-grant t LockMode.shared LockMode.shared holders g a c = add_nonempty t holders
Grants-grant t LockMode.shared LockMode.exclusive holders g a c = cc
Grants-grant t LockMode.exclusive LockMode.none holders g a c = cc
Grants-grant t LockMode.exclusive LockMode.shared holders g a c = cc
Grants-grant t LockMode.exclusive LockMode.exclusive holders g a c = cc

-- A stop of `serve` on an incompatible waiter is a stop on a mode that is held.
incompatible_held :
    (mode asked : LockMode) → is_compatible mode asked ≡ false → is_none mode ≡ true → ⊥
unfolding is_compatible
incompatible_held LockMode.none asked h k = cc
incompatible_held LockMode.shared asked h k = cc
incompatible_held LockMode.exclusive asked h k = cc

pub serve-IsConsistent :
    (mode : LockMode) (holders : List ℕ) (q : List Waiter) (flags : Cells)
    → Grants mode holders
    → Asks q
    → IsConsistent (serve mode holders q flags).entry
unfolding serve
serve-IsConsistent mode holders [] flags g a = record { grants = g; idle = λ h. refl; asks = tt }
serve-IsConsistent mode holders (w ∷ q) flags g a =
    elim (Bool-cases (is_compatible mode w.requested_mode)) [
      | inl c ↦ rw c (
          serve-IsConsistent (grant_mode mode w.requested_mode) (add w.txn_id holders) q
            (set_granted w.cell flags) (Grants-grant w.txn_id mode w.requested_mode holders g a.0 c)
            a.1)
      | inr c ↦ rw c (record {
        grants = g;
        idle = λ h. absurd (incompatible_held mode w.requested_mode c h);
        asks = a;
      })
    ]

Grants-remove :
    (t : ℕ) (mode : LockMode) (holders : List ℕ)
    → Grants mode holders
    → is_empty (remove t holders) ≡ false
    → Grants mode (remove t holders)
Grants-remove t LockMode.none holders g h = rw g (unfold remove in refl)
Grants-remove t LockMode.shared holders g h = h
Grants-remove t LockMode.exclusive holders g h = remove_single t holders g h

pub release_entry-IsConsistent :
    (t : ℕ) (e : LockEntry) (flags : Cells)
    → IsConsistent e
    → IsConsistent (release_entry t e flags).entry
unfolding release_entry process_waiters
release_entry-IsConsistent t e flags c = elim (Bool-cases (is_empty (remove t e.holders))) [
  | inl h ↦ rw h (
      serve-IsConsistent LockMode.none (remove t e.holders) e.wait_queue flags (ground arith)
        c.asks)
  | inr h ↦ rw h (record {
    grants = Grants-remove t e.current_mode e.holders c.grants h;
    idle = c.idle;
    asks = c.asks;
  })
]

pub drop_waiters-IsConsistent :
    (t : ℕ) (e : LockEntry) → IsConsistent e → IsConsistent (drop_waiters t e)
unfolding drop_waiters
drop_waiters-IsConsistent t e c = record {
  grants = c.grants;
  idle = λ h. rw (c.idle h) (unfold without_txn in refl);
  asks = Asks-without_txn t e.wait_queue c.asks;
}

upgrade-IsConsistent :
    (t : ℕ) (mode : LockMode) (cell : ℕ) (e : LockEntry) (q : List Waiter)
    → q ≡ e.wait_queue
    → is_exclusive mode ≡ true
    → is_none e.current_mode ≡ false
    → IsConsistent e
    → IsConsistent (upgrade t mode cell e q).0
unfolding upgrade
upgrade-IsConsistent t mode cell e [] p m held c = elim (Bool-cases (length e.holders == 1)) [
  | inl h ↦ rw h (record { grants = ground arith; idle = λ i. cc; asks = c.asks })
  | inr h ↦ rw h (record {
    grants = c.grants;
    idle = λ i. cc;
    asks = Asks-enqueue e.wait_queue _ c.asks (ground arith);
  })
]
upgrade-IsConsistent t mode cell e (w ∷ q) p m held c =
    elim (Bool-cases ((length e.holders == 1) && (w.txn_id == t))) [
      | inl h ↦
          rw h
            (record { grants = ground arith; idle = λ i. cc; asks = (subst Asks (sym p) c.asks).1 })
      | inr h ↦ rw h (record {
        grants = c.grants;
        idle = λ i. cc;
        asks = Asks-enqueue e.wait_queue _ c.asks (ground arith);
      })
    ]

held_of_member :
    (t : ℕ) (mode : LockMode) (holders : List ℕ)
    → Grants mode holders
    → contains t holders ≡ true
    → is_none mode ≡ false
unfolding contains
held_of_member t LockMode.none holders g h = cc (subst (λ hs. contains t hs ≡ true) g h)
held_of_member t LockMode.shared holders g h = refl
held_of_member t LockMode.exclusive holders g h = refl

-- A refused request finds the lock held.
refused_held :
    (mode asked : LockMode) (q : List Waiter)
    → (is_none mode ≡ true → q ≡ [])
    → (is_compatible mode asked && is_empty q) ≡ false
    → is_none mode ≡ false
unfolding is_compatible
refused_held LockMode.none asked q i h = let e = i refl in ground arith
refused_held LockMode.shared asked q i h = refl
refused_held LockMode.exclusive asked q i h = refl

request_entry-fresh-IsConsistent :
    (t : ℕ) (mode : LockMode) (cell : ℕ) (e : LockEntry)
    → is_none mode ≡ false
    → IsConsistent e
    → contains t e.holders ≡ false
    → IsConsistent (request_entry t mode cell e).0
unfolding request_entry
request_entry-fresh-IsConsistent t mode cell e asks c out =
    elim (Bool-cases (is_compatible e.current_mode mode && is_empty e.wait_queue)) [
      | inl h ↦
          rw (out, h)
            (record {
              grants = Grants-grant t e.current_mode mode e.holders c.grants asks (ground arith);
              idle = λ i. ground arith;
              asks = c.asks;
            })
      | inr h ↦
          rw (out, h)
            (record {
              grants = c.grants;
              idle = λ i. cc (refused_held e.current_mode mode e.wait_queue c.idle h);
              asks = Asks-enqueue e.wait_queue _ c.asks asks;
            })
    ]

pub request_entry-IsConsistent :
    (t : ℕ) (mode : LockMode) (cell : ℕ) (e : LockEntry)
    → is_none mode ≡ false
    → IsConsistent e
    → IsConsistent (request_entry t mode cell e).0
unfolding request_entry
request_entry-IsConsistent t mode cell e asks c = elim (Bool-cases (contains t e.holders)) [
  | inr out ↦ request_entry-fresh-IsConsistent t mode cell e asks c out
  | inl hit ↦ elim (Bool-cases (is_exclusive e.current_mode || is_shared mode)) [
    | inl h ↦ rw (hit, h) c
    | inr h ↦
        rw (hit, h)
          (upgrade-IsConsistent t mode cell e e.wait_queue refl (ground arith)
            (held_of_member t e.current_mode e.holders c.grants hit) c)
  ]
]
