-- ===== src/GroupCommit/Durability.antt =====
-- What an acknowledged commit can rely on.
use concurrent_transactional.Prelude.{
  ℕ, zero, suc, ◌+◌, ◌<◌, ◌^◌, Bytes, true, List, [], ◌∷◌, ◌++◌, map, length, length-append, take,
  ◌≡◌, refl, arith, append-nil, append_assoc, ap, sym, ◌∙◌, subst,
}
use concurrent_transactional.Wal.Records.{
  WalRecord, serialize, bytes_of, Consecutive, Consecutive-append,
}
use concurrent_transactional.Wal.{Wal, write_one, get_flushed_lsn}
use concurrent_transactional.GroupCommit.{wait_for_commit}
use concurrent_transactional.GroupCommit.System.{Phase, idle, writing, Reach}
use concurrent_transactional.GroupCommit.Invariant.{Inv}
use concurrent_transactional.GroupCommit.Writing.{write_one-serialize, cons_parts}
use concurrent_transactional.GroupCommit.Reachable.{Reach-Inv}

take-append {ℓ} : {A : Type ℓ} (n : ℕ) (xs ys : List A) → n ≡ length xs → take n (xs ++ ys) ≡ xs
take-append zero [] ys e = refl
take-append zero (x ∷ xs) ys e = absurd (omega arith)
take-append (suc n) [] ys e = absurd (omega arith)
take-append (suc n) (x ∷ xs) ys e = ap (λ t. x ∷ t) (take-append n xs ys (omega arith))

-- The records up to the last written one are those in the file and in the stream.
written_prefix :
    {found : Bytes} {log : List WalRecord} {w : Wal} {p : Phase} (v : Inv found log w p)
    → take w.flushed_lsn log ≡ v.D ++ v.S
written_prefix {w = w} v =
    rw (v.whole, ← append_assoc v.D v.S (v.R ++ v.B))
      (take-append w.flushed_lsn (v.D ++ v.S) (v.R ++ v.B)
        (omega (arith, v.last, length-append v.D v.S)))

log-Consecutive :
    {found : Bytes} {log : List WalRecord} {w : Wal} {p : Phase}
    → Inv found log w p
    → Consecutive 1 log
log-Consecutive v = rw v.whole (
    Consecutive-append _ _ v.D _ refl v.count_D (
      Consecutive-append _ _ v.S _ refl v.count_S
        (Consecutive-append _ _ v.R v.B refl v.count_R v.count_B)))

-- Whatever the threads logged before and during the flushes, whenever no flush is under way the
-- medium holds what the file held at the start and then the records logged so far up to number
-- `flushed_lsn`, whole, in the order of the calls; and the calls got the numbers 1, 2, 3, ...
pub synced_log :
    {found : Bytes} {log : List WalRecord} {w : Wal}
    → Reach found log w idle
    → (w.synced ≡ found ++ bytes_of (take w.flushed_lsn log)) × Consecutive 1 log
synced_log {found = found} r =
    let v = Reach-Inv r in
    (
      v.medium
          ∙ (v.file
              ∙ ap (λ t. found ++ bytes_of t)
                  (sym (written_prefix v ∙ rw v.streams (append-nil v.D)))),
      log-Consecutive v,
    )

early :
    {found : Bytes} {log : List WalRecord} {w : Wal} {rec : Bytes} {left batch : List Bytes}
    (R : List WalRecord) (v : Inv found log w (writing (rec ∷ left) batch))
    → v.R ≡ R
    → (k lsn : ℕ) × (wait_for_commit lsn (write_one rec w) ≡ true)
      × ((write_one rec w).written ≡ found ++ bytes_of (take k log))
      × (k < lsn)
unfolding wait_for_commit get_flushed_lsn
early [] v e = cc (v.rest ∙ ap (map serialize) e)
early {found = found} {log = log} {w = w} {rec = rec} (r ∷ R) v e = (
  length v.D,
  r.lsn,
  rw done (ground arith),
  rw done (v.file ∙ ap (λ t. found ++ bytes_of t) (sym in_file)),
  omega (arith, numbers),
)
  where
    counted : Consecutive (1 + length v.D + length v.S) (r ∷ R)
    counted = subst (Consecutive (1 + length v.D + length v.S)) e v.count_R

    numbers : (r.lsn ≡ 1 + length v.D + length v.S) × (r.lsn < 2 ^ 64)
    numbers = (counted.0, omega (arith, counted.0, v.next, v.fits, ap length e))

    done : write_one rec w ≡ record w { stream = w.stream ++ serialize r; flushed_lsn = r.lsn }
    done =
        rw (cons_parts (v.rest ∙ ap (map serialize) e)).0
          (write_one-serialize r w (omega (arith, numbers)) (omega (arith, numbers, v.last)))

    in_file : take (length v.D) log ≡ v.D
    in_file = rw v.whole (take-append (length v.D) v.D (v.S ++ (v.R ++ v.B)) refl)

-- As soon as a record is handed to the stream, a thread that tests whether its number is flushed is
-- told so and its commit is acknowledged, though the file itself, not to speak of the medium, has
-- only records of smaller numbers: the number is raised before `flush()` and before `fsync`.
pub early_acknowledgement :
    {found : Bytes} {log : List WalRecord} {w : Wal} {rec : Bytes} {left batch : List Bytes}
    → Reach found log w (writing (rec ∷ left) batch)
    → (k lsn : ℕ) × (wait_for_commit lsn (write_one rec w) ≡ true)
      × ((write_one rec w).written ≡ found ++ bytes_of (take k log))
      × (k < lsn)
early_acknowledgement r = let v = Reach-Inv r in early v.R v refl
