-- ===== src/Recovery/Crash.antt =====
-- What a restart finds after a crash.
use concurrent_transactional.Prelude.{
  ℕ, zero, suc, Bytes, none, some, List, [], ◌∷◌, ◌++◌, length, take, All, ◌≡◌, refl, arith,
  append-nil,
}
use concurrent_transactional.Store.{Store}
use concurrent_transactional.Wal.Records.{WalRecord, serialize, bytes_of, Consecutive}
use concurrent_transactional.Wal.{Wal}
use concurrent_transactional.GroupCommit.System.{Reach, idle}
use concurrent_transactional.GroupCommit.Durability.{synced_log}
use concurrent_transactional.Recovery.Decode.{IsEncodable}
use concurrent_transactional.Recovery.Torn.{read_record_torn}
use concurrent_transactional.Recovery.Replay.{scan_wal-bytes_of}
use concurrent_transactional.Recovery.Committed.{committed_operations}
use concurrent_transactional.Recovery.Refines.{apply_commits-note_all}
use concurrent_transactional.Recovery.{
  Recovered, read_record, apply_operations, no_scan, load_snapshot, replay_wal, recover,
}

-- Let a log file hold whole records with consecutive numbers, each with a 64-bit number, a 32-bit
-- transaction and texts below 64 KiB, and behind them a text that is not a whole record. Replaying it
-- applies to the store of the snapshot exactly the operations that those of the records commit which
-- the snapshot does not cover, in the order of the commits.
pub replay_wal_committed :
    (rs : List WalRecord) (n : ℕ) (torn : Bytes) (r : Recovered)
    → All IsEncodable rs
    → Consecutive n rs
    → read_record torn ≡ none
    → replay_wal (some (bytes_of rs ++ torn)) r
      ≡ apply_operations (committed_operations r.checkpoint_lsn rs) r.store
unfolding replay_wal
replay_wal_committed rs n torn r enc count h =
    let file = bytes_of rs ++ torn in
    rw (scan_wal-bytes_of rs (length file) r.checkpoint_lsn torn no_scan enc h (omega arith))
      (apply_commits-note_all r.checkpoint_lsn n rs r.store count)

-- A log that a crash has cut anywhere inside its last record: `recover`, given this file as the log
-- and no snapshot, applies exactly what the whole records before the cut commit. The records have
-- consecutive numbers of 64 bits, transactions of 32 bits and texts below 64 KiB.
pub recover_torn :
    (rs : List WalRecord) (n : ℕ) (last : WalRecord) (torn cut : Bytes) (b : ℕ) (s : Store)
    → All IsEncodable rs
    → Consecutive n rs
    → IsEncodable last
    → torn ++ b ∷ cut ≡ serialize last
    → recover none (some (bytes_of rs ++ torn)) s ≡ apply_operations (committed_operations 0 rs) s
unfolding recover load_snapshot
recover_torn rs n last torn cut b s enc count h e =
    replay_wal_committed rs n torn (record { store = s; checkpoint_lsn = 0 }) enc count
      (read_record_torn last torn b cut h e)

pub All-take : (k : ℕ) (rs : List WalRecord) → All IsEncodable rs → All IsEncodable (take k rs)
All-take zero rs a = tt
All-take (suc k) [] a = tt
All-take (suc k) (x ∷ rs) a = (a.0, All-take k rs a.1)

pub Consecutive-take :
    (k n : ℕ) (rs : List WalRecord) → Consecutive n rs → Consecutive n (take k rs)
Consecutive-take zero n rs a = tt
Consecutive-take (suc k) n [] a = tt
Consecutive-take (suc k) n (x ∷ rs) a = (a.0, Consecutive-take k (suc n) rs a.1)

-- If the machine stops while no flush is under way, `recover`, given what is then on the medium as
-- the log and no snapshot, applies the operations that the log up to number `flushed_lsn` commits, and
-- so every commit whose number the clients could see as flushed, whatever the order of logging and
-- of the parts of the flushes. The log file was empty when the server started, no checkpoint has cut
-- it, and every record has a transaction of 32 bits and texts below 64 KiB.
pub recover_synced :
    (log : List WalRecord) (w : Wal) (s : Store)
    → Reach [] log w idle
    → All IsEncodable log
    → recover none (some w.synced) s
      ≡ apply_operations (committed_operations 0 (take w.flushed_lsn log)) s
unfolding recover load_snapshot
recover_synced log w s r enc =
    let (file, count) = synced_log r in
    rw (file, ← append-nil (bytes_of (take w.flushed_lsn log)))
      (replay_wal_committed (take w.flushed_lsn log) 1 [] (record { store = s; checkpoint_lsn = 0 })
        (All-take w.flushed_lsn log enc) (Consecutive-take w.flushed_lsn 1 log count)
        (unfold read_record in refl))
