-- ===== src/GroupCommit/Invariant.antt =====
-- What is in the log file, in the stream and in the buffer at every point of the flush, and that
-- logging keeps it.
use concurrent_transactional.Prelude.{
  ℕ, ◌+◌, ◌<◌, ◌^◌, Bytes, true, List, [], ◌∷◌, ◌++◌, map, length, length-append, All, ◌≡◌, refl,
  arith, append-nil, append_assoc, ap, sym, ◌∙◌,
}
use concurrent_transactional.Wal.Encoding.{RecordType}
use concurrent_transactional.Wal.Records.{
  WalRecord, serialize, concat, bytes_of, Consecutive, Consecutive-append, map-serialize-append,
}
use concurrent_transactional.Wal.{Wal, initial, log_record}
use concurrent_transactional.GroupCommit.System.{record_of, Phase, idle, writing, flushed, synced}

-- The records that the worker still has to write, those of its batch, and whether the medium is
-- known to be up to date.
abbrev pub to_write : Phase → List Bytes
to_write idle = []
to_write (writing rest batch) = rest
to_write (flushed batch) = []
to_write (synced batch) = []

abbrev pub batch_of : Phase → List Bytes
batch_of idle = []
batch_of (writing rest batch) = batch
batch_of (flushed batch) = batch
batch_of (synced batch) = batch

abbrev pub Streams : Phase → List WalRecord → Type 0
Streams (writing rest batch) S = Unit
Streams idle S = S ≡ []
Streams (flushed batch) S = S ≡ []
Streams (synced batch) S = S ≡ []

abbrev pub OnMedium : Phase → Wal → Type 0
OnMedium idle w = w.synced ≡ w.written
OnMedium (synced batch) w = w.synced ≡ w.written
OnMedium (writing rest batch) w = Unit
OnMedium (flushed batch) w = Unit

-- The records in the file, in the stream, with the worker and in the buffer, in this order, are
-- numbered from 1 with no gap, and the last that was written has the number `flushed_lsn`.
pub record Inv (found : Bytes) (log : List WalRecord) (w : Wal) (p : Phase) : Type 0 where
  pub D : List WalRecord
  pub S : List WalRecord
  pub R : List WalRecord
  pub B : List WalRecord
  pub A : List WalRecord
  pub is_open : w.is_open ≡ true
  pub whole : log ≡ D ++ (S ++ (R ++ B))
  pub file : w.written ≡ found ++ bytes_of D
  pub stream : w.stream ≡ bytes_of S
  pub rest : to_write p ≡ map serialize R
  pub buffer : w.buffer ≡ map serialize B
  pub batch : batch_of p ≡ map serialize A
  pub below : All (λ r. r.lsn < 1 + length D + length S + length R) A
  pub count_D : Consecutive 1 D
  pub count_S : Consecutive (1 + length D) S
  pub count_R : Consecutive (1 + length D + length S) R
  pub count_B : Consecutive (1 + length D + length S + length R) B
  pub next : w.next_lsn ≡ 1 + length D + length S + length R + length B
  pub fits : w.next_lsn < 2 ^ 64
  pub last : w.flushed_lsn ≡ length D + length S
  pub streams : Streams p S
  pub medium : OnMedium p w

pub Inv-initial : (found : Bytes) → Inv found [] (initial true found) idle
unfolding initial concat
Inv-initial found = record {
  D = [];
  S = [];
  R = [];
  B = [];
  A = [];
  is_open = refl;
  whole = refl;
  file = sym (append-nil found);
  stream = refl;
  rest = refl;
  buffer = refl;
  batch = refl;
  below = tt;
  count_D = tt;
  count_S = tt;
  count_R = tt;
  count_B = tt;
  next = refl;
  fits = omega arith;
  last = refl;
  streams = refl;
  medium = refl;
}

pub logs-Inv :
    {found : Bytes} {log : List WalRecord} {w : Wal} {p : Phase} (txn : ℕ) (type : RecordType)
    (key value : Bytes)
    → w.next_lsn + 1 < 2 ^ 64
    → Inv found log w p
    → Inv found (log ++ record_of w txn type key value ∷ []) (log_record txn type key value w).0 p
unfolding log_record
logs-Inv {w = w} {p = p} txn type key value h v = record {
  D = v.D;
  S = v.S;
  R = v.R;
  B = v.B ++ r ∷ [];
  A = v.A;
  is_open = v.is_open;
  whole = rw v.whole (simp append_assoc);
  file = v.file;
  stream = v.stream;
  rest = v.rest;
  buffer = ap (λ b. b ++ serialize r ∷ []) v.buffer ∙ sym (map-serialize-append v.B (r ∷ []));
  batch = v.batch;
  below = v.below;
  count_D = v.count_D;
  count_S = v.count_S;
  count_R = v.count_R;
  count_B = Consecutive-append _ w.next_lsn v.B (r ∷ []) (sym v.next) v.count_B (refl, tt);
  next = omega (arith, v.next, length-append v.B (r ∷ []));
  fits = omega arith;
  last = v.last;
  streams = v.streams;
  medium = medium_kept p v.medium;
}
  where
    r : WalRecord
    r = record_of w txn type key value

    medium_kept : (p : Phase) → OnMedium p w → OnMedium p (log_record txn type key value w).0
    medium_kept idle m = m
    medium_kept (writing rest batch) m = m
    medium_kept (flushed batch) m = m
    medium_kept (synced batch) m = m
