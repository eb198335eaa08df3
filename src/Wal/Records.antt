-- ===== src/Wal/Records.antt =====
-- `WALRecord` of src/core/wal_manager.h, and texts that are the records of consecutive numbers.
use concurrent_transactional.Prelude.{
  ℕ, suc, ◌+◌, ◌≤◌, ◌<◌, Bytes, List, [], ◌∷◌, ◌++◌, map, length, All, ◌≡◌, refl, arith,
  append_assoc, ap, ◌∙◌,
}
use concurrent_transactional.Wal.Encoding.{RecordType, serialize_record}

pub record WalRecord : Type 0 where
  pub lsn : ℕ
  pub txn_id : ℕ
  pub type : RecordType
  pub key : Bytes
  pub value : Bytes

abbrev pub serialize : WalRecord → Bytes
serialize r = serialize_record r.lsn r.txn_id r.type r.key r.value

-- The bytes of the records, one after another.
unfoldable pub concat : List Bytes → Bytes
concat [] = []
concat (b ∷ bs) = b ++ concat bs

abbrev pub bytes_of : List WalRecord → Bytes
bytes_of rs = concat (map serialize rs)

-- The numbers of the records count up from `n`.
abbrev pub Consecutive : ℕ → List WalRecord → Type 0
Consecutive n [] = Unit
Consecutive n (r ∷ rs) = (r.lsn ≡ n) × Consecutive (suc n) rs

pub Consecutive-append :
    (n m : ℕ) (xs ys : List WalRecord)
    → n + length xs ≡ m
    → Consecutive n xs
    → Consecutive m ys
    → Consecutive n (xs ++ ys)
Consecutive-append n m [] ys e hx hy = let e' : m ≡ n = omega arith in rw e' at hy
Consecutive-append n m (x ∷ xs) ys e hx hy =
    (hx.0, Consecutive-append (suc n) m xs ys (omega arith) hx.1 hy)

pub concat-append : (xs ys : List Bytes) → concat (xs ++ ys) ≡ concat xs ++ concat ys
unfolding concat
concat-append [] ys = refl
concat-append (x ∷ xs) ys = rw (concat-append xs ys, append_assoc x (concat xs) (concat ys))

pub map-serialize-append :
    (xs ys : List WalRecord) → map serialize (xs ++ ys) ≡ map serialize xs ++ map serialize ys
map-serialize-append [] ys = refl
map-serialize-append (x ∷ xs) ys = ap (λ t. serialize x ∷ t) (map-serialize-append xs ys)

pub bytes_of-append : (xs ys : List WalRecord) → bytes_of (xs ++ ys) ≡ bytes_of xs ++ bytes_of ys
bytes_of-append xs ys =
    ap concat (map-serialize-append xs ys) ∙ concat-append (map serialize xs) (map serialize ys)

-- Numbers that count up from `n` stay below the end.
pub Consecutive-below :
    (n m : ℕ) (xs : List WalRecord) → n + length xs ≤ m → Consecutive n xs → All (λ r. r.lsn < m) xs
Consecutive-below n m [] h c = tt
Consecutive-below n m (x ∷ xs) h c = (omega arith, Consecutive-below (suc n) m xs (omega arith) c.1)
