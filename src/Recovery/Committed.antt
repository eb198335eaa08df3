-- ===== src/Recovery/Committed.antt =====
-- Which operations a log commits, said without the state of the scan.
use concurrent_transactional.Prelude.{
  ℕ, ◌==◌, leb, Bytes, Bool, true, false, ◌&&◌, not, none, some, List, [], ◌∷◌, ◌++◌, if◌then◌else◌,
}
use concurrent_transactional.Prelude.Map.{nat_order}
use concurrent_transactional.Wal.Encoding.{RecordType}
use concurrent_transactional.Wal.Records.{WalRecord}
use concurrent_transactional.Recovery.{Operation}

-- A record that the snapshot does not cover.
abbrev pub is_new : ℕ → WalRecord → Bool
is_new c r = not (leb r.lsn c)

abbrev pub concerns : ℕ → ℕ → WalRecord → Bool
concerns c t r = is_new c r && (r.txn_id == t)

abbrev pub operations : RecordType → Bytes → Bytes → List Operation
operations RecordType.put key value = record { key = key; value = some value } ∷ []
operations RecordType.delete key value = record { key = key; value = none } ∷ []
operations RecordType.begin key value = []
operations RecordType.commit key value = []
operations RecordType.abort key value = []

-- The operations of a transaction, in the order of the log.
unfoldable pub ops_of : ℕ → ℕ → List WalRecord → List Operation
ops_of c t [] = []
ops_of c t (r ∷ rs) =
    (if concerns c t r then operations r.type r.key r.value else []) ++ ops_of c t rs

abbrev pub settle : RecordType → Bool → Bool
settle RecordType.commit b = true
settle RecordType.abort b = false
settle RecordType.begin b = b
settle RecordType.put b = b
settle RecordType.delete b = b

-- Whether the last commit or abort of a transaction is a commit; `b` if it has neither.
unfoldable pub outcome : ℕ → ℕ → Bool → List WalRecord → Bool
outcome c t b [] = b
outcome c t b (r ∷ rs) = outcome c t (if concerns c t r then settle r.type b else b) rs

abbrev pub is_commit : RecordType → Bool
is_commit RecordType.commit = true
is_commit RecordType.abort = false
is_commit RecordType.begin = false
is_commit RecordType.put = false
is_commit RecordType.delete = false

-- The commits of the log in its order, with their numbers.
unfoldable pub commits : ℕ → List WalRecord → List (ℕ × ℕ)
commits c [] = []
commits c (r ∷ rs) =
    (if is_new c r && is_commit r.type then (r.txn_id, r.lsn) ∷ [] else []) ++ commits c rs

-- What the log commits: for each commit the operations of its transaction, unless that was aborted
-- afterwards.
unfoldable pub committed_of : ℕ → List WalRecord → List (ℕ × ℕ) → List Operation
committed_of c rs [] = []
committed_of c rs ((t, lsn) ∷ cs) =
    (if outcome c t false rs then ops_of c t rs else []) ++ committed_of c rs cs

unfoldable pub committed_operations : ℕ → List WalRecord → List Operation
committed_operations c rs = committed_of c rs (commits c rs)
