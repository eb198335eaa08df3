-- ===== src/GroupCommit/Progress.antt =====
-- A whole `flushOnce` is one of the runs of the worker, ends without an exception, and leaves
-- nothing behind.
use concurrent_transactional.Prelude.{
  ℕ, ◌+◌, ◌≤◌, ◌<◌, ◌^◌, ltb, Bytes, true, false, List, [], ◌∷◌, ◌++◌, map, length, length-append,
  All, ◌≡◌, refl, arith, ap, sym, ◌∙◌, subst, some, is_empty, if◌then◌else◌,
}
use concurrent_transactional.Wal.Records.{WalRecord, serialize}
use concurrent_transactional.Wal.{
  Wal, fetch_and_clear_buffer, write_one, flush_stream, fsync, update_flushed_lsn,
}
use concurrent_transactional.GroupCommit.{max_lsn}
use concurrent_transactional.GroupCommit.Numbers.{parse_lsn-serialize_record}
use concurrent_transactional.GroupCommit.System.{
  idle, writing, fetches, writes, flushes, syncs, publishes, Reach, next,
}
use concurrent_transactional.GroupCommit.Writing.{nil_of_map}
use concurrent_transactional.GroupCommit.Reachable.{Reach-Inv}
use concurrent_transactional.GroupCommit.{flush_once}
use concurrent_transactional.Wal.{write_all, write_to_disk}

write_all-Reach :
    {found : Bytes} {log : List WalRecord} {batch : List Bytes} (rest : List Bytes) (w : Wal)
    → Reach found log w (writing rest batch)
    → Reach found log (write_all rest w) (writing [] batch)
unfolding write_all
write_all-Reach [] w r = r
write_all-Reach (rec ∷ rest) w r = write_all-Reach rest (write_one rec w) (next r writes)

-- Every batch of records has a largest number: `parseLSN` throws for none of them.
max_lsn_total :
    (m n : ℕ) (A : List WalRecord)
    → n ≤ 2 ^ 64
    → All (λ r. r.lsn < n) A
    → (lsn : ℕ) × (max_lsn m (map serialize A) ≡ some lsn)
unfolding max_lsn
max_lsn_total m n [] b a = (m, refl)
max_lsn_total m n (r ∷ A) b a =
    let parsed =
      parse_lsn-serialize_record r.lsn r.txn_id r.type r.key r.value (omega (arith, a.0)) in
    rw (parsed, max_lsn) (max_lsn_total (if ltb m r.lsn then r.lsn else m) n A b a.1)

-- After the batch is written: flush, `fsync`, and the last update of `flushed_lsn`.
finish :
    {found : Bytes} {log : List WalRecord} {w : Wal} {batch : List Bytes}
    → Reach found log w (writing [] batch)
    → (lsn : ℕ) × (max_lsn 0 batch ≡ some lsn)
      × Reach found log (update_flushed_lsn lsn (fsync true (flush_stream w))) idle
finish {w = w} r =
    let v = Reach-Inv r in
    let (lsn, e) =
      max_lsn_total 0 (1 + length v.D + length v.S + length v.R) v.A (omega (arith, v.next, v.fits))
        v.below in
    let e' = subst (λ b. max_lsn 0 b ≡ some lsn) (sym v.batch) e in
    (lsn, e', next (next (next r flushes) syncs) (publishes lsn e'))

is_open-write_all : (rest : List Bytes) (w : Wal) → (write_all rest w).is_open ≡ w.is_open
unfolding write_all write_one
is_open-write_all [] w = refl
is_open-write_all (rec ∷ rest) w = is_open-write_all rest (write_one rec w) ∙ ground arith

buffer-write_all : (rest : List Bytes) (w : Wal) → (write_all rest w).buffer ≡ w.buffer
unfolding write_all write_one
buffer-write_all [] w = refl
buffer-write_all (rec ∷ rest) w = buffer-write_all rest (write_one rec w) ∙ ground arith

buffer-finish :
    (lsn : ℕ) (w : Wal) → (update_flushed_lsn lsn (fsync true (flush_stream w))).buffer ≡ w.buffer
unfolding update_flushed_lsn fsync flush_stream
buffer-finish lsn w = ground arith

-- With an empty buffer all that was logged is written.
all_flushed :
    {found : Bytes} {log : List WalRecord} {w : Wal}
    → Reach found log w idle
    → w.buffer ≡ []
    → w.flushed_lsn ≡ length log
all_flushed {log = log} {w = w} r e =
    let v = Reach-Inv r in
    let total = ap length v.whole in
    omega (
      arith,
      v.last,
      total,
      length-append v.D (v.S ++ (v.R ++ v.B)),
      length-append v.S (v.R ++ v.B),
      length-append v.R v.B,
      ap length (nil_of_map v.R v.rest),
      ap length (nil_of_map v.B (sym e ∙ v.buffer)),
    )

abbrev Flushes : Bytes → List WalRecord → Wal → Type 0
Flushes found log w =
    (w' : Wal) × (flush_once true w ≡ some w')
    × Reach found log w' idle
    × (w'.flushed_lsn ≡ length log)

flush_once_batch :
    {found : Bytes} {log : List WalRecord} {w : Wal} (batch : List Bytes)
    → w.buffer ≡ batch
    → Reach found log w idle
    → Flushes found log w
unfolding flush_once write_to_disk fetch_and_clear_buffer
flush_once_batch {w = w} [] e r = (w, rw (e, flush_once) refl, r, all_flushed r e)
flush_once_batch {w = w} (rec ∷ rest) e r =
    let w0 = (fetch_and_clear_buffer w).0 in
    let fetched = next r (fetches (λ n. cc (e, n))) in
    let (lsn, largest, done) = finish (write_all-Reach w.buffer w0 fetched) in
    let w' = update_flushed_lsn lsn (fsync true (flush_stream (write_all w.buffer w0))) in
    let not_empty : is_empty w.buffer ≡ false = ap is_empty e in
    (
      w',
      rw (not_empty, (Reach-Inv r).is_open, largest) refl,
      done,
      all_flushed done (buffer-finish lsn (write_all w.buffer w0) ∙ buffer-write_all w.buffer w0),
    )

-- Between flushes, one call of `flushOnce` throws no exception, is one of the runs of the worker,
-- and ends with the flushed number at that of the last record that was logged, so that the test of
-- `waitForCommit` holds for every commit logged before. That a waiter is woken to make the test is
-- not said.
pub flush_once_flushes :
    {found : Bytes} {log : List WalRecord} {w : Wal}
    → Reach found log w idle
    → (w' : Wal) × (flush_once true w ≡ some w')
      × Reach found log w' idle
      × (w'.flushed_lsn ≡ length log)
flush_once_flushes {w = w} r = flush_once_batch w.buffer refl r
