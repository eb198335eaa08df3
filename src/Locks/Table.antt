-- ===== src/Locks/Table.antt =====
-- What holds of every entry of the lock table is kept by the operations on the table.
use concurrent_transactional.Prelude.{
  ℕ, Bytes, bytes_eq, bytes_eq_iff, bytes_eq_refl, true, some, List, [], ◌∷◌, All, if◌then◌else◌,
  ◌≡◌, refl, arith, Bool-cases, Option-cases, inl, inr, sym, subst,
}
use concurrent_transactional.Prelude.Map.{
  Map, lookup, insert, erase, lookup-insert, lookup-erase, bytes_order,
}
use concurrent_transactional.Locks.Entry.{
  LockEntry, Cells, fresh, remove, serve, process_waiters, release_entry,
}
use concurrent_transactional.Locks.{
  Locks, entry_in, unused, release_found, release_lock, process_keys, erase_keys, release_all_locks,
  keys_to_process,
}

pub entry_in-insert :
    (j k : Bytes) (e : LockEntry) (m : Map Bytes LockEntry)
    → entry_in j (insert k e m) ≡ (if bytes_eq k j then e else entry_in j m)
unfolding entry_in
entry_in-insert j k e m = ground (arith, lookup-insert k j e m)

pub entry_in-erase :
    (j k : Bytes) (m : Map Bytes LockEntry)
    → entry_in j (erase k m) ≡ (if bytes_eq k j then fresh else entry_in j m)
unfolding entry_in
entry_in-erase j k m = ground (arith, lookup-erase k j m)

pub entry_in-found :
    (k : Bytes) (e : LockEntry) (m : Map Bytes LockEntry) → lookup k m ≡ some e → entry_in k m ≡ e
unfolding entry_in
entry_in-found k e m h = rw (h, entry_in)

-- An entry with neither holders nor waiters stays so.
release_entry-unused :
    (t : ℕ) (e : LockEntry) (f : Cells)
    → unused e ≡ true
    → unused (release_entry t e f).entry ≡ true
unfolding release_entry process_waiters remove serve
release_entry-unused t e f h = ground arith

-- An entry that is marked for removal is unused.
pub gone_unused :
    (txn : ℕ) (k : Bytes) (e : LockEntry) (l : Locks)
    → (release_found txn k e l).1 ≡ true
    → unused (entry_in k (release_found txn k e l).0.table) ≡ true
unfolding release_found
gone_unused txn k e l h = rw (entry_in-insert, bytes_eq_refl k) (ground arith)

-- `P` of an entry, kept by the releases of `txn` and by the removal of an unused entry.
module _ (P : LockEntry → Type 0) (txn : ℕ)
    (keeps : (e : LockEntry) (f : Cells) → P e → P (release_entry txn e f).entry)
    (renew : (e : LockEntry) → P e → unused e ≡ true → P fresh) where
  insert-P :
      (j k : Bytes) (e : LockEntry) (m : Map Bytes LockEntry)
      → (k ≡ j → P e)
      → P (entry_in j m)
      → P (entry_in j (insert k e m))
  insert-P j k e m pe h = elim (Bool-cases (bytes_eq k j)) [
    | inl s ↦ rw (entry_in-insert, s) (pe ((bytes_eq_iff k j).0 s))
    | inr d ↦ rw (entry_in-insert, d) h
  ]

  pub erase-P :
      (j k : Bytes) (m : Map Bytes LockEntry)
      → unused (entry_in k m) ≡ true
      → P (entry_in j m)
      → P (entry_in j (erase k m))
  erase-P j k m u h = elim (Bool-cases (bytes_eq k j)) [
    | inl s ↦
        rw (entry_in-erase, s)
          (renew (entry_in j m) h
            (subst (λ i. unused (entry_in i m) ≡ true) ((bytes_eq_iff k j).0 s) u))
    | inr d ↦ rw (entry_in-erase, d) h
  ]

  pub release_found-P :
      (j k : Bytes) (e : LockEntry) (l : Locks)
      → lookup k l.table ≡ some e
      → P (entry_in j l.table)
      → P (entry_in j (release_found txn k e l).0.table)
  unfolding release_found
  release_found-P j k e l found h =
      insert-P j k _ l.table
        (λ s. keeps e l.flags (
          subst P (entry_in-found k e l.table found)
            (subst (λ i. P (entry_in i l.table)) (sym s) h)))
        h

  pub release_lock-P :
      (j k : Bytes) (l : Locks)
      → P (entry_in j l.table)
      → P (entry_in j (release_lock txn k l).table)
  unfolding release_lock
  release_lock-P j k l h = elim (Option-cases (lookup k l.table)) [
    | inl e ↦ rw (e, release_lock) h
    | inr (e, found) ↦
        let kept = release_found-P j k e l found h in
        elim (Bool-cases (release_found txn k e l).1) [
          | inr stays ↦ rw (found, release_lock, stays) kept
          | inl gone ↦
              rw (found, release_lock, gone)
                (erase-P j k (release_found txn k e l).0.table (gone_unused txn k e l gone) kept)
        ]
  ]

  pub process_keys-P :
      (j : Bytes) (ks : List Bytes) (l : Locks)
      → P (entry_in j l.table)
      → P (entry_in j (process_keys txn ks l).0.table)
  unfolding process_keys
  process_keys-P j [] l h = h
  process_keys-P j (k ∷ ks) l h = elim (Option-cases (lookup k l.table)) [
    | inl e ↦ rw (e, process_keys) (process_keys-P j ks l h)
    | inr (e, found) ↦
        rw (found, process_keys)
          (process_keys-P j ks (release_found txn k e l).0 (release_found-P j k e l found h))
  ]

-- The entries to erase are unused, and stay so while the other keys are processed.
abbrev pub IsUnused : LockEntry → Type 0
IsUnused e = unused e ≡ true

abbrev pub AllUnused : Map Bytes LockEntry → List Bytes → Type 0
AllUnused m = All (λ k. IsUnused (entry_in k m))

pub process_keys-unused :
    (txn : ℕ) (ks : List Bytes) (l : Locks)
    → AllUnused (process_keys txn ks l).0.table (process_keys txn ks l).1
unfolding process_keys
process_keys-unused txn [] l = tt
process_keys-unused txn (k ∷ ks) l = elim (Option-cases (lookup k l.table)) [
  | inl e ↦ rw (e, process_keys) (process_keys-unused txn ks l)
  | inr (e, found) ↦
      let rest = process_keys-unused txn ks (release_found txn k e l).0 in
      elim (Bool-cases (release_found txn k e l).1) [
        | inr stays ↦ rw (found, process_keys, stays) rest
        | inl gone ↦
            rw (found, process_keys, gone)
              (
                process_keys-P IsUnused txn (release_entry-unused txn) (λ e' h u. refl) k ks
                    (release_found txn k e l).0 (gone_unused txn k e l gone),
                rest,
              )
      ]
]

pub erase-AllUnused :
    (k : Bytes) (ks : List Bytes) (m : Map Bytes LockEntry)
    → IsUnused (entry_in k m)
    → AllUnused m ks
    → AllUnused (erase k m) ks
erase-AllUnused k [] m u h = tt
erase-AllUnused k (j ∷ ks) m u h = (
  erase-P IsUnused 0 (release_entry-unused 0) (λ e' h u. refl) j k m u h.0,
  erase-AllUnused k ks m u h.1,
)

module _ (P : LockEntry → Type 0) (txn : ℕ)
    (keeps : (e : LockEntry) (f : Cells) → P e → P (release_entry txn e f).entry)
    (renew : (e : LockEntry) → P e → unused e ≡ true → P fresh) where
  pub erase_keys-P :
      (j : Bytes) (ks : List Bytes) (m : Map Bytes LockEntry)
      → AllUnused m ks
      → P (entry_in j m)
      → P (entry_in j (erase_keys ks m))
  unfolding erase_keys
  erase_keys-P j [] m u h = h
  erase_keys-P j (k ∷ ks) m u h =
      erase_keys-P j ks (erase k m) (erase-AllUnused k ks m u.0 u.1)
        (erase-P P txn keeps renew j k m u.0 h)

  pub release_all_locks-P :
      (j : Bytes) (l : Locks)
      → P (entry_in j l.table)
      → P (entry_in j (release_all_locks txn l).table)
  unfolding release_all_locks
  release_all_locks-P j l h =
      let ks = keys_to_process txn l.table in
      erase_keys-P j (process_keys txn ks l).1 (process_keys txn ks l).0.table
        (process_keys-unused txn ks l) (process_keys-P P txn keeps renew j ks l h)
