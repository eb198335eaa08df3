-- ===== src/Checkpoint/Numbering.antt =====
-- The numbers of the log start again at 1 with every start of the server, whatever the number of the
-- last checkpoint.
use concurrent_transactional.Prelude.{
  ℕ, zero, suc, ◌+◌, ◌≤◌, ◌<◌, ◌^◌, Bytes, false, some, List, [], ◌∷◌, length, take, All, ◌≡◌, refl,
  arith, ◌∙◌, append-nil,
}
use concurrent_transactional.Store.{Store}
use concurrent_transactional.Wal.{Wal}
use concurrent_transactional.Wal.Records.{WalRecord, Consecutive, bytes_of}
use concurrent_transactional.GroupCommit.System.{Reach, idle}
use concurrent_transactional.GroupCommit.Durability.{synced_log}
use concurrent_transactional.Recovery.Decode.{IsEncodable}
use concurrent_transactional.Recovery.Committed.{
  is_new, commits, committed_of, committed_operations,
}
use concurrent_transactional.Recovery.Crash.{replay_wal_committed, All-take, Consecutive-take}
use concurrent_transactional.Recovery.{read_record, put_entries, apply_operations, recover}
use concurrent_transactional.Checkpoint.{snapshot_text}
use concurrent_transactional.Checkpoint.Snapshot.{IsShort, load_snapshot-snapshot_text}

commits_covered :
    (c n : ℕ) (rs : List WalRecord) → Consecutive n rs → n + length rs ≤ suc c → commits c rs ≡ []
unfolding commits
commits_covered c n [] h k = refl
commits_covered c n (r ∷ rs) h k =
    let old : is_new c r ≡ false = ground (arith, h.0) in
    rw old (commits_covered c (suc n) rs h.1 (omega arith))

length-take-le {ℓ} : {A : Type ℓ} (k : ℕ) (xs : List A) → length (take k xs) ≤ length xs
length-take-le zero xs = omega arith
length-take-le (suc k) [] = omega arith
length-take-le (suc k) (x ∷ xs) = omega (arith, length-take-le k xs)

-- After a start that found a snapshot with number `c` and an empty log, as long as no more than `c`
-- records have been logged, a further recovery gives the snapshot alone: every transaction that
-- committed since the start, with its commit flushed and acknowledged, is passed over.
pub commits_after_restart_lost :
    (c : ℕ) (es : List (Bytes × Bytes)) (log : List WalRecord) (w : Wal) (s : Store)
    → c < 2 ^ 64
    → length es < 2 ^ 64
    → All IsShort es
    → Reach [] log w idle
    → All IsEncodable log
    → length log ≤ c
    → recover (some (snapshot_text c es)) (some w.synced) s ≡ put_entries es s
unfolding recover committed_operations
commits_after_restart_lost c es log w s h n short r enc few =
    let (file, count) = synced_log r in
    let flushed = take w.flushed_lsn log in
    rw (load_snapshot-snapshot_text c es s h n short, file, ← append-nil (bytes_of flushed))
      (replay_wal_committed flushed 1 [] (record { store = put_entries es s; checkpoint_lsn = c })
          (All-take w.flushed_lsn log enc) (Consecutive-take w.flushed_lsn 1 log count)
          (unfold read_record in refl)
        ∙ rw
            (commits_covered c 1 flushed (Consecutive-take w.flushed_lsn 1 log count)
              (omega (arith, length-take-le w.flushed_lsn log)))
            (unfold committed_of apply_operations in refl))
