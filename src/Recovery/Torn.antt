-- ===== src/Recovery/Torn.antt =====
-- A record that a crash has cut short is not read.
use concurrent_transactional.Prelude.{
  ℕ, zero, suc, ◌==◌, Bytes, Bool, true, false, Option, none, some, [], ◌∷◌, ◌++◌, ◌>>=◌,
  if◌then◌else◌, ◌≡◌, ◌≢◌, Option-cases, inl, inr, ap, sym, ◌∙◌, append-nil,
}
use concurrent_transactional.Wal.Records.{WalRecord, serialize}
use concurrent_transactional.Wal.{little_endian}
use concurrent_transactional.Recovery.Reading.{read, read_string}
use concurrent_transactional.Recovery.{RawRecord, read_payload, read_record}
use concurrent_transactional.Recovery.Decode.{IsEncodable, read_record-serialize}

-- What a reader finds in a file it finds in every longer file, and it leaves the longer rest.
abbrev Extends : {A : Type 0} → (Bytes → Option (A × Bytes)) → Type 0
Extends {A} p =
    (f g : Bytes) (a : A) (rest : Bytes) → p f ≡ some (a, rest) → p (f ++ g) ≡ some (a, rest ++ g)

Extends-bind :
    {A B : Type 0} (p : Bytes → Option (A × Bytes)) (q : A → Bytes → Option (B × Bytes))
    → Extends p
    → ((a : A) → Extends (q a))
    → Extends (λ f. p f >>= λ x. q x.0 x.1)
Extends-bind {A} {B} p q hp hq f g b rest e = elim (Option-cases (p f)) [
  | inl missing ↦ cc (ap rest_of missing)
  | inr (x, found) ↦
      ap rest_of (hp f g x.0 x.1 found) ∙ hq x.0 x.1 g b rest (sym (ap rest_of found) ∙ e)
]
  where
    rest_of : Option (A × Bytes) → Option (B × Bytes)
    rest_of o = o >>= λ x. q x.0 x.1

Extends-some : {A : Type 0} (a : A) → Extends (λ f. some (a, f))
Extends-some a f g b rest e = ap (λ o. o >>= λ x. some (x.0, x.1 ++ g)) e

Extends-read : (n : ℕ) → Extends (read n)
unfolding read
Extends-read zero f g a rest e = Extends-some [] f g a rest e
Extends-read (suc n) [] g a rest e = cc
Extends-read (suc n) (b ∷ f) g a rest e =
    Extends-bind (read n) (λ bs file. some (b ∷ bs, file)) (Extends-read n)
      (λ bs. Extends-some (b ∷ bs)) f g a rest e

Extends-read_string : Extends read_string
unfolding read_string
Extends-read_string =
    Extends-bind (read 2) (λ len. read (little_endian len)) (Extends-read 2)
      (λ len. Extends-read (little_endian len))

Extends-if :
    {A : Type 0} (c : Bool) (p q : Bytes → Option (A × Bytes))
    → Extends p
    → Extends q
    → Extends (λ f. if c then p f else q f)
Extends-if true p q hp hq = hp
Extends-if false p q hp hq = hq

Extends-read_payload : (type : ℕ) → Extends (read_payload type)
unfolding read_payload
Extends-read_payload type =
    Extends-if (type == 2) _ _
      (Extends-bind read_string (λ key file. read_string file >>= λ x. some ((key, x.0), x.1))
        Extends-read_string
        (λ key.
          Extends-bind read_string (λ value file. some ((key, value), file)) Extends-read_string
            (λ value. Extends-some (key, value))))
      (Extends-if (type == 3) _ _
        (Extends-bind read_string (λ key file. some ((key, []), file)) Extends-read_string
          (λ key. Extends-some (key, [])))
        (Extends-some ([], [])))

Extends-read_record : Extends read_record
unfolding read_record
Extends-read_record = Extends-bind (read 4) _ (Extends-read 4) λ crc.
    Extends-bind (read 8) _ (Extends-read 8) λ lsn.
      Extends-bind (read 4) _ (Extends-read 4) λ txn_id.
        Extends-bind (read 1) _ (Extends-read 1) λ type.
          Extends-bind (read_payload (little_endian type)) _
            (Extends-read_payload (little_endian type)) λ texts. Extends-some _

-- A proper prefix of a record, whatever was cut off, ends the loop: it is never taken for a record.
pub read_record_torn :
    (r : WalRecord) (torn : Bytes) (b : ℕ) (cut : Bytes)
    → IsEncodable r
    → torn ++ b ∷ cut ≡ serialize r
    → read_record torn ≡ none
read_record_torn r torn b cut h e = elim (Option-cases (read_record torn)) [
  | inl missing ↦ missing
  | inr (x, found) ↦ absurd (
      append_cons x.1 b cut (
        ap (λ o. rest_of o)
          (sym (Extends-read_record torn (b ∷ cut) x.0 x.1 found)
            ∙ (ap read_record (e ∙ sym (append-nil (serialize r)))
                ∙ read_record-serialize r [] h))))
]
  where
    rest_of : Option (RawRecord × Bytes) → Bytes
    rest_of none = []
    rest_of (some y) = y.1

    append_cons : (xs : Bytes) (y : ℕ) (ys : Bytes) → xs ++ y ∷ ys ≢ []
    append_cons [] y ys = λ p. cc
    append_cons (x ∷ xs) y ys = λ p. cc
