-- ===== src/Checkpoint/Snapshot.antt =====
-- A snapshot is read back as it was written.
use concurrent_transactional.Prelude.{
  ℕ, zero, suc, ◌+◌, ◌*◌, ◌/◌, ◌%◌, ◌^◌, ◌<◌, Bytes, some, List, [], ◌∷◌, ◌++◌, length, take, All,
  ◌≡◌, refl, arith, ap,
}
use concurrent_transactional.Store.{Store}
use concurrent_transactional.Wal.Layout.{little_endian-append_u64}
use concurrent_transactional.Recovery.Decode.{read-append}
use concurrent_transactional.Recovery.Reading.{read_string, read_entry, read_loop, read_entries}
use concurrent_transactional.Recovery.{put_entries, load_snapshot}
use concurrent_transactional.Checkpoint.{write_string, write_entries, snapshot_text}

-- A key and a value below 64 KiB.
abbrev pub IsShort : Bytes × Bytes → Type 0
IsShort (key, value) = (length key < 2 ^ 16) × (length value < 2 ^ 16)

take_all {ℓ} : {A : Type ℓ} (n : ℕ) (xs : List A) → n ≡ length xs → take n xs ≡ xs
take_all zero [] e = refl
take_all zero (x ∷ xs) e = absurd (omega arith)
take_all (suc n) [] e = refl
take_all (suc n) (x ∷ xs) e = ap (λ t. x ∷ t) (take_all n xs (omega arith))

read_string-write_string :
    (s rest : Bytes) → length s < 2 ^ 16 → read_string (write_string s ++ rest) ≡ some (s, rest)
unfolding read_string write_string
read_string-write_string s rest h = rw (whole, len) (read-append s rest)
  where
    whole : take (length s % 2 ^ 16) s ≡ s
    whole = take_all (length s % 2 ^ 16) s (omega arith)

    len : length s % 2 ^ 16 / 1 % 256 + 256 * (length s % 2 ^ 16 / 2 ^ 8 % 256 + 256 * 0) ≡ length s
    len = omega arith

read_entry-write :
    (key value rest : Bytes)
    → IsShort (key, value)
    → read_entry (write_string key ++ (write_string value ++ rest)) ≡ some ((key, value), rest)
unfolding read_entry
read_entry-write key value rest h = rw (
  read_string-write_string key (write_string value ++ rest) h.0,
  read_string-write_string value rest h.1,
)

read_loop-write_entries :
    (es : List (Bytes × Bytes)) → All IsShort es → read_loop (length es) (write_entries es) ≡ es
unfolding read_loop write_entries
read_loop-write_entries [] a = refl
read_loop-write_entries ((key, value) ∷ es) a =
    rw (read_entry-write key value (write_entries es) a.0, read_loop)
      (ap (λ t. (key, value) ∷ t) (read_loop-write_entries es a.1))

-- Loading the snapshot of any list of entries of less than 64 KiB each puts exactly these entries, in
-- their order, into the store, and gives back the number of the checkpoint.
pub load_snapshot-snapshot_text :
    (lsn : ℕ) (es : List (Bytes × Bytes)) (s : Store)
    → lsn < 2 ^ 64
    → length es < 2 ^ 64
    → All IsShort es
    → load_snapshot (some (snapshot_text lsn es)) s
      ≡ record { store = put_entries es s; checkpoint_lsn = lsn }
unfolding load_snapshot read_entries snapshot_text
load_snapshot-snapshot_text lsn es s h n a = rw (
  little_endian-append_u64 lsn h,
  little_endian-append_u64 (length es) n,
  read_loop-write_entries es a,
)
