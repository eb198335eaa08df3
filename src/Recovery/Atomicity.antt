-- ===== src/Recovery/Atomicity.antt =====
-- A transaction that did not commit leaves nothing behind.
use concurrent_transactional.Prelude.{
  ℕ, ◌==◌, ==_iff, Bytes, Bool, false, ◌&&◌, none, some, List, [], ◌∷◌, ◌++◌, All, ◌≡◌, ◌≢◌, refl,
  arith, ap, sym, ◌∙◌, if◌then◌else◌, Bool-cases, inl, inr,
}
use concurrent_transactional.Wal.Records.{WalRecord, bytes_of, Consecutive}
use concurrent_transactional.Recovery.Decode.{IsEncodable}
use concurrent_transactional.Recovery.Committed.{
  concerns, is_new, is_commit, operations, settle, ops_of, outcome, commits, committed_of,
  committed_operations,
}
use concurrent_transactional.Recovery.Crash.{replay_wal_committed}
use concurrent_transactional.Recovery.{Recovered, read_record, apply_operations, replay_wal}

-- The log with the records of a transaction left out.
unfoldable pub log_without : ℕ → List WalRecord → List WalRecord
log_without t [] = []
log_without t (r ∷ rs) = let rest = log_without t rs in if r.txn_id == t then rest else r ∷ rest

ops_of-log_without :
    (c t u : ℕ) (rs : List WalRecord) → u ≢ t → ops_of c u (log_without t rs) ≡ ops_of c u rs
unfolding ops_of log_without
ops_of-log_without c t u [] d = refl
ops_of-log_without c t u (r ∷ rs) d = elim (Bool-cases (r.txn_id == t)) [
  | inr e ↦ rw e (
      ap (λ o. (if concerns c u r then operations r.type r.key r.value else []) ++ o)
        (ops_of-log_without c t u rs d))
  | inl e ↦
      let other : (r.txn_id == u) ≡ false = ground arith in
      let skipped : concerns c u r ≡ false = ground arith in
      rw (e, skipped) (ops_of-log_without c t u rs d)
]

outcome-log_without :
    (c t u : ℕ) (b : Bool) (rs : List WalRecord)
    → u ≢ t
    → outcome c u b (log_without t rs) ≡ outcome c u b rs
unfolding outcome log_without
outcome-log_without c t u b [] d = refl
outcome-log_without c t u b (r ∷ rs) d = elim (Bool-cases (r.txn_id == t)) [
  | inr e ↦ rw e (outcome-log_without c t u (if concerns c u r then settle r.type b else b) rs d)
  | inl e ↦
      let skipped : concerns c u r ≡ false = ground arith in
      rw (e, skipped) (outcome-log_without c t u b rs d)
]

committed_of-log_without :
    (c t : ℕ) (log rs : List WalRecord)
    → outcome c t false log ≡ false
    → committed_of c (log_without t log) (commits c (log_without t rs))
      ≡ committed_of c log (commits c rs)
unfolding commits log_without committed_of
committed_of-log_without c t log [] h = refl
committed_of-log_without c t log (r ∷ rs) h =
    let rest = committed_of-log_without c t log rs h in
    elim (Bool-cases (is_new c r && is_commit r.type)) [
      | inr plain ↦ elim (Bool-cases (r.txn_id == t)) [
        | inl e ↦ rw (e, plain) rest
        | inr e ↦ rw (e, plain) rest
      ]
      | inl commit ↦ elim (Bool-cases (r.txn_id == t)) [
        | inl e ↦ rw (e, commit) (rw ((==_iff r.txn_id t).0 e, h) rest)
        | inr e ↦
            let other : r.txn_id ≢ t = (λ same. ground arith) in
            rw (e, commit)
              (rw
                (
                  outcome-log_without c t r.txn_id false log other,
                  ops_of-log_without c t r.txn_id log other,
                )
                (ap (λ o. (if outcome c r.txn_id false log then ops_of c r.txn_id log else []) ++ o)
                  rest))
      ]
    ]

-- Let a log hold whole records with consecutive numbers, each with a 64-bit number, a 32-bit
-- transaction and texts below 64 KiB, and behind them a text that is not a whole record, and let the
-- last commit or abort of a transaction in it be no commit, because it was aborted or because the
-- crash came first. Replaying the log then gives what it commits with every record of that
-- transaction left out: it leaves nothing behind.
pub replay_wal_uncommitted :
    (log : List WalRecord) (n t : ℕ) (torn : Bytes) (r : Recovered)
    → All IsEncodable log
    → Consecutive n log
    → read_record torn ≡ none
    → outcome r.checkpoint_lsn t false log ≡ false
    → replay_wal (some (bytes_of log ++ torn)) r
      ≡ apply_operations (committed_operations r.checkpoint_lsn (log_without t log)) r.store
unfolding committed_operations
replay_wal_uncommitted log n t torn r enc count h open_ =
    replay_wal_committed log n torn r enc count h
    ∙ ap (λ ops. apply_operations ops r.store)
        (sym (committed_of-log_without r.checkpoint_lsn t log log open_))
