-- ===== src/Recovery/Refines.antt =====
-- The scan and the replay do what the log commits.
use concurrent_transactional.Prelude.{
  ℕ, suc, ◌≤◌, ◌==◌, ==_iff, leb, Bytes, Bool, true, false, ◌&&◌, List, [], ◌∷◌, ◌++◌, ◌≡◌, refl,
  arith, append_assoc, append-nil, ap, sym, ◌∙◌, if◌then◌else◌, Bool-cases, inl, inr, subst,
}
use concurrent_transactional.Prelude.Map.{Map, lookup, insert, lookup-insert, nat_order}
use concurrent_transactional.Store.{Store}
use concurrent_transactional.Wal.Encoding.{RecordType, type_code}
use concurrent_transactional.Wal.Records.{WalRecord, Consecutive}
use concurrent_transactional.Recovery.Decode.{raw_of}
use concurrent_transactional.Recovery.Replay.{note_all}
use concurrent_transactional.Recovery.{
  Operation, RawRecord, TxnLog, Scan, no_log, log_of, note_log, note_record, insert_commit,
  sort_commits, apply_operation, apply_operations, apply_commits, no_scan,
}
use concurrent_transactional.Recovery.Committed.{
  is_new, concerns, operations, ops_of, settle, outcome, is_commit, commits, committed_of,
  committed_operations,
}

-- The scan keeps, for each transaction, its operations and its outcome.
log_of-insert :
    (t u : ℕ) (l : TxnLog) (m : Map ℕ TxnLog)
    → log_of t (insert u l m) ≡ (if u == t then l else log_of t m)
unfolding log_of
log_of-insert t u l m = ground (arith, lookup-insert u t l m)

log_of-note_record :
    (c t : ℕ) (r : WalRecord) (s : Scan)
    → log_of t (note_record c (raw_of r) s).txns
      ≡ (if concerns c t r then note_log (raw_of r) (log_of t s.txns) else log_of t s.txns)
unfolding note_record
log_of-note_record c t r s = ground (
  arith,
  log_of-insert t r.txn_id (note_log (raw_of r) (log_of r.txn_id s.txns)) s.txns,
  ==_iff r.txn_id t,
)

note_log_ops :
    (crc lsn txn : ℕ) (type : RecordType) (key value : Bytes) (l : TxnLog)
    → let r : RawRecord = record {
      crc = crc;
      lsn = lsn;
      txn_id = txn;
      type = type_code type;
      key = key;
      value = value;
    } in
      ((note_log r l).ops ≡ l.ops ++ operations type key value)
      × ((note_log r l).committed ≡ settle type l.committed)
unfolding note_log
note_log_ops crc lsn txn RecordType.begin key value l = (sym (append-nil l.ops), refl)
note_log_ops crc lsn txn RecordType.put key value l = (refl, refl)
note_log_ops crc lsn txn RecordType.delete key value l = (refl, refl)
note_log_ops crc lsn txn RecordType.commit key value l = (sym (append-nil l.ops), refl)
note_log_ops crc lsn txn RecordType.abort key value l = (sym (append-nil l.ops), refl)

note_record_log :
    (c t : ℕ) (r : WalRecord) (s : Scan)
    → ((log_of t (note_record c (raw_of r) s).txns).ops
        ≡ (log_of t s.txns).ops ++ (if concerns c t r then operations r.type r.key r.value else []))
      × ((log_of t (note_record c (raw_of r) s).txns).committed ≡ (
          if concerns c t r
          then settle r.type (log_of t s.txns).committed
          else (log_of t s.txns).committed))
note_record_log c t r s =
    let noted = log_of-note_record c t r s in
    let new = note_log_ops _ r.lsn r.txn_id r.type r.key r.value (log_of t s.txns) in
    elim (Bool-cases (concerns c t r)) [
      | inl h ↦ rw (noted, h) new
      | inr h ↦ rw (noted, h) (sym (append-nil (log_of t s.txns).ops), refl)
    ]

pub note_all_log :
    (c t : ℕ) (rs : List WalRecord) (s : Scan)
    → ((log_of t (note_all c rs s).txns).ops ≡ (log_of t s.txns).ops ++ ops_of c t rs)
      × ((log_of t (note_all c rs s).txns).committed ≡ outcome c t (log_of t s.txns).committed rs)
unfolding note_all ops_of outcome
note_all_log c t [] s = (sym (append-nil (log_of t s.txns).ops), refl)
note_all_log c t (r ∷ rs) s =
    let (ops, committed) = note_record_log c t r s in
    let (more, final) = note_all_log c t rs (note_record c (raw_of r) s) in
    (
      more
          ∙ (ap (λ o. o ++ ops_of c t rs) ops
              ∙ append_assoc (log_of t s.txns).ops _ (ops_of c t rs)),
      final ∙ ap (λ b. outcome c t b rs) committed,
    )

-- The commits are collected in the order of the log.
commit_order-note_record :
    (c : ℕ) (r : WalRecord) (s : Scan)
    → (note_record c (raw_of r) s).commit_order
      ≡ s.commit_order ++ (if is_new c r && is_commit r.type then (r.txn_id, r.lsn) ∷ [] else [])
unfolding note_record
commit_order-note_record c r s = elim (Bool-cases (leb r.lsn c)) [
  | inl h ↦ rw h (sym (append-nil s.commit_order))
  | inr h ↦ rw h (by_type r.type r.txn_id r.lsn s.commit_order)
]
  where
    by_type :
        (type : RecordType) (t l : ℕ) (cs : List (ℕ × ℕ))
        → (if type_code type == 4 then cs ++ (t, l) ∷ [] else cs)
          ≡ cs ++ (if is_commit type then (t, l) ∷ [] else [])
    by_type RecordType.begin t l cs = sym (append-nil cs)
    by_type RecordType.put t l cs = sym (append-nil cs)
    by_type RecordType.delete t l cs = sym (append-nil cs)
    by_type RecordType.commit t l cs = refl
    by_type RecordType.abort t l cs = sym (append-nil cs)

commit_order-note_all :
    (c : ℕ) (rs : List WalRecord) (s : Scan)
    → (note_all c rs s).commit_order ≡ s.commit_order ++ commits c rs
unfolding note_all commits
commit_order-note_all c [] s = sym (append-nil s.commit_order)
commit_order-note_all c (r ∷ rs) s =
    commit_order-note_all c rs (note_record c (raw_of r) s)
    ∙ (ap (λ o. o ++ commits c rs) (commit_order-note_record c r s)
        ∙ append_assoc s.commit_order _ (commits c rs))

-- Commits in increasing order from `n`; the sort leaves them where they are.
abbrev Increasing : ℕ → List (ℕ × ℕ) → Type 0
Increasing n [] = Unit
Increasing n ((t, l) ∷ cs) = (n ≤ l) × Increasing (suc l) cs

Increasing-weaken : (n m : ℕ) (cs : List (ℕ × ℕ)) → n ≤ m → Increasing m cs → Increasing n cs
Increasing-weaken n m [] h i = tt
Increasing-weaken n m ((t, l) ∷ cs) h i = (omega (arith, i.0), i.1)

Increasing-commits :
    (c n : ℕ) (rs : List WalRecord) → Consecutive n rs → Increasing n (commits c rs)
unfolding commits
Increasing-commits c n [] h = tt
Increasing-commits c n (r ∷ rs) h =
    let rest = Increasing-commits c (suc n) rs h.1 in
    elim (Bool-cases (is_new c r && is_commit r.type)) [
      | inl e ↦
          rw e (omega (arith, h.0), subst (λ m. Increasing (suc m) (commits c rs)) (sym h.0) rest)
      | inr e ↦ rw e (Increasing-weaken n (suc n) (commits c rs) (omega arith) rest)
    ]

insert_commit_first :
    (t l : ℕ) (cs : List (ℕ × ℕ)) → Increasing (suc l) cs → insert_commit (t, l) cs ≡ (t, l) ∷ cs
unfolding insert_commit
insert_commit_first t l [] h = refl
insert_commit_first t l ((u, m) ∷ cs) h = ground (arith, h.0)

sort_commits-Increasing : (n : ℕ) (cs : List (ℕ × ℕ)) → Increasing n cs → sort_commits cs ≡ cs
unfolding sort_commits
sort_commits-Increasing n [] h = refl
sort_commits-Increasing n ((t, l) ∷ cs) h =
    ap (insert_commit (t, l)) (sort_commits-Increasing (suc l) cs h.1)
    ∙ insert_commit_first t l cs h.1

pub apply_operations-append :
    (xs ys : List Operation) (s : Store)
    → apply_operations (xs ++ ys) s ≡ apply_operations ys (apply_operations xs s)
unfolding apply_operations
apply_operations-append [] ys s = refl
apply_operations-append (x ∷ xs) ys s = apply_operations-append xs ys (apply_operation x s)

choose :
    (b : Bool) (ops rest : List Operation) (s : Store)
    → apply_operations rest (if b then apply_operations ops s else s)
      ≡ apply_operations ((if b then ops else []) ++ rest) s
choose true ops rest s = sym (apply_operations-append ops rest s)
choose false ops rest s = refl

apply_commits-committed_of :
    (c : ℕ) (rs : List WalRecord) (cs : List (ℕ × ℕ)) (s : Store)
    → apply_commits cs (note_all c rs no_scan).txns s ≡ apply_operations (committed_of c rs cs) s
unfolding apply_commits committed_of
apply_commits-committed_of c rs [] s = unfold apply_operations in refl
apply_commits-committed_of c rs ((t, l) ∷ cs) s =
    let (ops, committed) = note_all_log c t rs no_scan in
    let none_before : log_of t [] ≡ no_log = unfold log_of lookup in refl in
    rw (ops, committed, none_before)
      (apply_commits-committed_of c rs cs _
        ∙ choose (outcome c t false rs) (ops_of c t rs) (committed_of c rs cs) s)

-- Replaying the scanned records applies what the log commits.
pub apply_commits-note_all :
    (c n : ℕ) (rs : List WalRecord) (s : Store)
    → Consecutive n rs
    → let scan = note_all c rs no_scan in
      apply_commits (sort_commits scan.commit_order) scan.txns s
      ≡ apply_operations (committed_operations c rs) s
unfolding committed_operations
apply_commits-note_all c n rs s h =
    rw
      (
        commit_order-note_all c rs no_scan,
        sort_commits-Increasing n (commits c rs) (Increasing-commits c n rs h),
      )
      (apply_commits-committed_of c rs (commits c rs) s)
