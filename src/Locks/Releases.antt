-- ===== src/Locks/Releases.antt =====
-- What holds of the whole lock manager is kept by the releases, if it is by their parts: the release
-- of one entry, and the removal of an unused one.
use concurrent_transactional.Prelude.{
  ℕ, Bytes, true, some, List, [], ◌∷◌, ◌≡◌, Bool-cases, Option-cases, inl, inr,
}
use concurrent_transactional.Prelude.Map.{lookup, erase, bytes_order}
use concurrent_transactional.Locks.Entry.{LockEntry}
use concurrent_transactional.Locks.{
  Locks, entry_in, unused, release_found, release_lock, process_keys, keys_to_process, erase_keys,
  release_all_locks,
}
use concurrent_transactional.Locks.Table.{
  process_keys-unused, gone_unused, AllUnused, erase-AllUnused,
}

module _ (P : Locks → Type 0) (u : ℕ)
    (found_keeps : (k : Bytes) (e : LockEntry) (l : Locks)
      → lookup k l.table ≡ some e
      → P l
      → P (release_found u k e l).0)
    (erase_keeps : (k : Bytes) (l : Locks)
      → unused (entry_in k l.table) ≡ true
      → P l
      → P (record l { table = erase k l.table })) where
  pub release_lock-keeps : (k : Bytes) (l : Locks) → P l → P (release_lock u k l)
  unfolding release_lock
  release_lock-keeps k l h = elim (Option-cases (lookup k l.table)) [
    | inl e ↦ rw (e, release_lock) h
    | inr (e, found) ↦
        let kept = found_keeps k e l found h in
        elim (Bool-cases (release_found u k e l).1) [
          | inr stays ↦ rw (found, release_lock, stays) kept
          | inl gone ↦
              rw (found, release_lock, gone)
                (erase_keeps k (release_found u k e l).0 (gone_unused u k e l gone) kept)
        ]
  ]

  process_keys-keeps : (ks : List Bytes) (l : Locks) → P l → P (process_keys u ks l).0
  unfolding process_keys
  process_keys-keeps [] l h = h
  process_keys-keeps (k ∷ ks) l h = elim (Option-cases (lookup k l.table)) [
    | inl e ↦ rw (e, process_keys) (process_keys-keeps ks l h)
    | inr (e, found) ↦
        rw (found, process_keys)
          (process_keys-keeps ks (release_found u k e l).0 (found_keeps k e l found h))
  ]

  erase_keys-keeps :
      (ks : List Bytes) (l : Locks)
      → AllUnused l.table ks
      → P l
      → P (record l { table = erase_keys ks l.table })
  unfolding erase_keys
  erase_keys-keeps [] l a h = h
  erase_keys-keeps (k ∷ ks) l a h =
      erase_keys-keeps ks (record l { table = erase k l.table })
        (erase-AllUnused k ks l.table a.0 a.1) (erase_keeps k l a.0 h)

  pub release_all_locks-keeps : (l : Locks) → P l → P (release_all_locks u l)
  unfolding release_all_locks
  release_all_locks-keeps l h =
      let ks = keys_to_process u l.table in
      erase_keys-keeps (process_keys u ks l).1 (process_keys u ks l).0 (process_keys-unused u ks l)
        (process_keys-keeps ks l h)
