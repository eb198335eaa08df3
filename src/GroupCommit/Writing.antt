-- ===== src/GroupCommit/Writing.antt =====
-- The invariant while a batch is fetched and written.
use concurrent_transactional.Prelude.{
  ◌+◌, ◌<◌, ◌^◌, Bytes, List, [], ◌∷◌, ◌++◌, map, length, length-append, All, ◌≡◌, refl, arith,
  append-nil, append_assoc, ap, sym, ◌∙◌, subst,
}
use concurrent_transactional.Wal.Layout.{
  length-serialize_record, lsn_bytes, little_endian-append_u64,
}
use concurrent_transactional.Wal.Records.{
  WalRecord, serialize, concat, bytes_of, Consecutive, Consecutive-append, bytes_of-append,
  Consecutive-below,
}
use concurrent_transactional.Wal.{Wal, fetch_and_clear_buffer, write_one, little_endian}
use concurrent_transactional.GroupCommit.System.{idle, writing}
use concurrent_transactional.GroupCommit.Invariant.{Inv}

pub nil_of_map : (rs : List WalRecord) → [] ≡ map serialize rs → rs ≡ []
nil_of_map [] e = refl
nil_of_map (r ∷ rs) e = cc

pub fetches-Inv :
    {found : Bytes} {log : List WalRecord} {w : Wal}
    → Inv found log w idle
    → Inv found log (fetch_and_clear_buffer w).0 (writing w.buffer w.buffer)
unfolding fetch_and_clear_buffer
fetches-Inv {w = w} v = record {
  D = v.D;
  S = v.S;
  R = v.B;
  B = [];
  A = v.B;
  is_open = v.is_open;
  whole = v.whole ∙ rw (nil_of_map v.R v.rest, append-nil v.B) refl;
  file = v.file;
  stream = v.stream;
  rest = v.buffer;
  buffer = refl;
  batch = v.buffer;
  below = Consecutive-below _ _ v.B (omega (arith, none_left)) v.count_B;
  count_D = v.count_D;
  count_S = v.count_S;
  count_R =
      let e : 1 + length v.D + length v.S + length v.R ≡ 1 + length v.D + length v.S =
        omega (arith, none_left) in
      rw e at v.count_B;
  count_B = tt;
  next = omega (arith, v.next, none_left);
  fits = v.fits;
  last = v.last;
  streams = tt;
  medium = tt;
}
  where
    none_left : length v.R ≡ 0
    none_left = ap length (nil_of_map v.R v.rest)

-- Writing a record adds its bytes to the stream and raises `flushed_lsn` to its number.
pub write_one-serialize :
    (r : WalRecord) (w : Wal)
    → r.lsn < 2 ^ 64
    → w.flushed_lsn < r.lsn
    → write_one (serialize r) w ≡ record w { stream = w.stream ++ serialize r; flushed_lsn = r.lsn }
unfolding write_one
write_one-serialize r w fits above = ground (
  arith,
  length-serialize_record r.lsn r.txn_id r.type r.key r.value,
  ap little_endian (lsn_bytes r.lsn r.txn_id r.type r.key r.value),
  little_endian-append_u64 r.lsn fits,
)

pub cons_parts {ℓ} : {A : Type ℓ} {x y : A} {xs ys : List A} → x ∷ xs ≡ y ∷ ys → (x ≡ y) × (xs ≡ ys)
cons_parts e = (cc, cc)

pub writes-Inv :
    {found : Bytes} {log : List WalRecord} {w : Wal} {rec : Bytes} {left batch : List Bytes}
    (R : List WalRecord) (v : Inv found log w (writing (rec ∷ left) batch))
    → v.R ≡ R
    → Inv found log (write_one rec w) (writing left batch)
writes-Inv {rec = rec} {left = left} [] v e = cc (v.rest ∙ ap (map serialize) e)
writes-Inv {found = found} {w = w} {rec = rec} {left = left} {batch = batch} (r ∷ R) v e =
    rw (parts.0, write_one-serialize r w (omega (arith, numbers)) (omega (arith, numbers, v.last)))
      (record {
        D = v.D;
        S = v.S ++ r ∷ [];
        R = R;
        B = v.B;
        A = v.A;
        is_open = v.is_open;
        whole = v.whole ∙ rw e (simp append_assoc);
        file = v.file;
        stream =
            ap (λ b. b ++ serialize r) v.stream
            ∙ (ap (λ t. bytes_of v.S ++ t) one_record ∙ sym (bytes_of-append v.S (r ∷ [])));
        rest = parts.1;
        buffer = v.buffer;
        batch = v.batch;
        below = subst (λ n. All (λ q. q.lsn < n) v.A) total v.below;
        count_D = v.count_D;
        count_S = Consecutive-append _ _ v.S (r ∷ []) refl v.count_S (counted.0, tt);
        count_R =
            subst (λ n. Consecutive n R) (omega (arith, length-append v.S (r ∷ []))) counted.1;
        count_B = subst (λ n. Consecutive n v.B) total v.count_B;
        next = omega (arith, v.next, total);
        fits = v.fits;
        last = omega (arith, numbers, length-append v.S (r ∷ []));
        streams = tt;
        medium = tt;
      })
  where
    parts : (rec ≡ serialize r) × (left ≡ map serialize R)
    parts = cons_parts (v.rest ∙ ap (map serialize) e)

    counted : Consecutive (1 + length v.D + length v.S) (r ∷ R)
    counted = subst (Consecutive (1 + length v.D + length v.S)) e v.count_R

    numbers : (r.lsn ≡ 1 + length v.D + length v.S) × (r.lsn < 2 ^ 64)
    numbers = (counted.0, omega (arith, counted.0, v.next, v.fits, ap length e))

    one_record : serialize r ≡ bytes_of (r ∷ [])
    one_record = unfold concat in sym (append-nil (serialize r))

    total :
        1 + length v.D + length v.S + length v.R
        ≡ 1 + length v.D + length (v.S ++ r ∷ []) + length R
    total = omega (arith, length-append v.S (r ∷ []), ap length e)
