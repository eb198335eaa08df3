-- ===== src/GroupCommit/Reachable.antt =====
-- The invariant from the flush of the stream on, and in every reachable state.
use concurrent_transactional.Prelude.{
  ℕ, ◌+◌, ◌≤◌, ◌<◌, ◌^◌, ltb, Bytes, true, false, List, [], ◌∷◌, ◌++◌, map, length, length-append,
  All, ◌≡◌, refl, arith, append_assoc, ap, sym, ◌∙◌, subst, some, if◌then◌else◌,
}
use concurrent_transactional.Wal.Records.{
  WalRecord, serialize, concat, bytes_of, Consecutive, Consecutive-append, bytes_of-append,
}
use concurrent_transactional.Wal.{Wal, flush_stream, fsync, update_flushed_lsn}
use concurrent_transactional.GroupCommit.{max_lsn}
use concurrent_transactional.GroupCommit.Numbers.{parse_lsn-serialize_record}
use concurrent_transactional.GroupCommit.System.{
  Phase, idle, writing, flushed, synced, Step, logs, fetches, writes, flushes, syncs, publishes,
  Reach, opened, next,
}
use concurrent_transactional.GroupCommit.Invariant.{Inv, Inv-initial, logs-Inv}
use concurrent_transactional.GroupCommit.Writing.{nil_of_map, fetches-Inv, writes-Inv}

flushes-Inv :
    {found : Bytes} {log : List WalRecord} {w : Wal} {batch : List Bytes}
    → Inv found log w (writing [] batch)
    → Inv found log (flush_stream w) (flushed batch)
unfolding flush_stream
flushes-Inv {found = found} v = record {
  D = v.D ++ v.S;
  S = [];
  R = v.R;
  B = v.B;
  A = v.A;
  is_open = v.is_open;
  whole = v.whole ∙ sym (append_assoc v.D v.S (v.R ++ v.B));
  file =
      rw (v.file, v.stream)
        (append_assoc found (bytes_of v.D) (bytes_of v.S)
          ∙ ap (λ t. found ++ t) (sym (bytes_of-append v.D v.S)));
  stream = unfold concat in refl;
  rest = v.rest;
  buffer = v.buffer;
  batch = v.batch;
  below = subst (λ n. All (λ q. q.lsn < n) v.A) (omega (arith, length-append v.D v.S)) v.below;
  count_D = Consecutive-append _ _ v.D v.S refl v.count_D v.count_S;
  count_S = tt;
  count_R = subst (λ n. Consecutive n v.R) (omega (arith, length-append v.D v.S)) v.count_R;
  count_B = subst (λ n. Consecutive n v.B) (omega (arith, length-append v.D v.S)) v.count_B;
  next = omega (arith, v.next, length-append v.D v.S);
  fits = v.fits;
  last = omega (arith, v.last, length-append v.D v.S);
  streams = refl;
  medium = tt;
}

syncs-Inv :
    {found : Bytes} {log : List WalRecord} {w : Wal} {batch : List Bytes}
    → Inv found log w (flushed batch)
    → Inv found log (fsync true w) (synced batch)
unfolding fsync
syncs-Inv v = record {
  D = v.D;
  S = v.S;
  R = v.R;
  B = v.B;
  A = v.A;
  is_open = v.is_open;
  whole = v.whole;
  file = v.file;
  stream = v.stream;
  rest = v.rest;
  buffer = v.buffer;
  batch = v.batch;
  below = v.below;
  count_D = v.count_D;
  count_S = v.count_S;
  count_R = v.count_R;
  count_B = v.count_B;
  next = v.next;
  fits = v.fits;
  last = v.last;
  streams = v.streams;
  medium = refl;
}

-- The largest number of a batch stays within the bound of its records.
max_lsn-le :
    (m n lsn : ℕ) (A : List WalRecord)
    → m < n
    → n ≤ 2 ^ 64
    → All (λ r. r.lsn < n) A
    → max_lsn m (map serialize A) ≡ some lsn
    → lsn < n
unfolding max_lsn
max_lsn-le m n lsn [] h b a e = let same : m ≡ lsn = cc in rw (← same) h
max_lsn-le m n lsn (r ∷ A) h b a e =
    let parsed =
      parse_lsn-serialize_record r.lsn r.txn_id r.type r.key r.value (omega (arith, a.0)) in
    max_lsn-le (if ltb m r.lsn then r.lsn else m) n lsn A (ground (arith, a.0)) b a.1
      (rw (parsed, max_lsn) at e)

publishes-Inv :
    {found : Bytes} {log : List WalRecord} {w : Wal} {batch : List Bytes} (lsn : ℕ)
    → max_lsn 0 batch ≡ some lsn
    → Inv found log w (synced batch)
    → Inv found log (update_flushed_lsn lsn w) idle
unfolding update_flushed_lsn
publishes-Inv {w = w} lsn e v = rw unchanged (record {
  D = v.D;
  S = v.S;
  R = v.R;
  B = v.B;
  A = [];
  is_open = v.is_open;
  whole = v.whole;
  file = v.file;
  stream = v.stream;
  rest = v.rest;
  buffer = v.buffer;
  batch = refl;
  below = tt;
  count_D = v.count_D;
  count_S = v.count_S;
  count_R = v.count_R;
  count_B = v.count_B;
  next = v.next;
  fits = v.fits;
  last = v.last;
  streams = v.streams;
  medium = v.medium;
})
  where
    none_left : length v.R ≡ 0
    none_left = ap length (nil_of_map v.R v.rest)

    bound : lsn < 1 + length v.D + length v.S + length v.R
    bound =
        max_lsn-le 0 _ lsn v.A (omega arith) (omega (arith, v.next, v.fits)) v.below
          (subst (λ b. max_lsn 0 b ≡ some lsn) v.batch e)

    unchanged : ltb w.flushed_lsn lsn ≡ false
    unchanged = ground (arith, bound, v.last, none_left)

Step-Inv :
    {found : Bytes} {log more : List WalRecord} {w u : Wal} {p q : Phase}
    → Step log w p more u q
    → Inv found log w p
    → Inv found more u q
Step-Inv (logs txn type key value h) v = logs-Inv txn type key value h v
Step-Inv (fetches h) v = fetches-Inv v
Step-Inv writes v = writes-Inv v.R v refl
Step-Inv flushes v = flushes-Inv v
Step-Inv syncs v = syncs-Inv v
Step-Inv (publishes lsn h) v = publishes-Inv lsn h v

pub Reach-Inv :
    {found : Bytes} {log : List WalRecord} {w : Wal} {p : Phase}
    → Reach found log w p
    → Inv found log w p
Reach-Inv {found} opened = Inv-initial found
Reach-Inv (next r s) = Step-Inv s (Reach-Inv r)
