-- ===== src/Prelude/Sorted.antt =====
-- A `std::map` on texts lists each key once, in order: `insert` and `erase` keep that so, and a
-- loop over such a map meets the entry that `lookup` finds and no other of that key.
use concurrent_transactional.Prelude.Tests.{Bool-cases}
use concurrent_transactional.Prelude.Text.{Bytes, bytes_eq, bytes_lt, bytes_eq_iff}
use concurrent_transactional.Prelude.Map.{Map, lookup, insert, erase, bytes_order}
use mathlib.Core.Path.{◌≡◌, refl, subst}
use mathlib.Core.Logic.{inl, inr}
use mathlib.Core.Bool.{true, false}
use mathlib.Core.Option.{none}
use mathlib.Core.List.{[], ◌∷◌}
use native.Mathlib.Omega.{arith}

bytes_lt_trans : (a b c : Bytes) → bytes_lt a b ≡ true → bytes_lt b c ≡ true → bytes_lt a c ≡ true
unfolding bytes_lt
bytes_lt_trans [] b [] h k = ground (arith, bytes_lt_nothing b k)
  where
    bytes_lt_nothing : (b : Bytes) → bytes_lt b [] ≡ true → false ≡ true
    bytes_lt_nothing [] h = h
    bytes_lt_nothing (x ∷ b) h = h
bytes_lt_trans [] b (z ∷ c) h k = refl
bytes_lt_trans (x ∷ a) [] c h k = ground arith
bytes_lt_trans (x ∷ a) (y ∷ b) [] h k = ground arith
bytes_lt_trans (x ∷ a) (y ∷ b) (z ∷ c) h k = ground (arith, bytes_lt_trans a b c)

bytes_lt_total : (a b : Bytes) → bytes_eq a b ≡ false → bytes_lt a b ≡ false → bytes_lt b a ≡ true
unfolding bytes_lt bytes_eq
bytes_lt_total [] [] h k = ground arith
bytes_lt_total [] (y ∷ b) h k = ground arith
bytes_lt_total (x ∷ a) [] h k = refl
bytes_lt_total (x ∷ a) (y ∷ b) h k = ground (arith, bytes_lt_total a b)

bytes_lt_differ : (a b : Bytes) → bytes_lt a b ≡ true → bytes_eq a b ≡ false
unfolding bytes_lt bytes_eq
bytes_lt_differ [] [] h = ground arith
bytes_lt_differ [] (y ∷ b) h = refl
bytes_lt_differ (x ∷ a) [] h = refl
bytes_lt_differ (x ∷ a) (y ∷ b) h = ground (arith, bytes_lt_differ a b)

differ_sym : (a b : Bytes) → bytes_eq a b ≡ false → bytes_eq b a ≡ false
differ_sym a b h = ground (arith, bytes_eq_iff a b, bytes_eq_iff b a)

module _ {V : Type 0} where
  abbrev pub Above : Bytes → Map Bytes V → Type 0
  Above k [] = Unit
  Above k ((j, w) ∷ m) = (bytes_lt k j ≡ true) × Above k m

  abbrev pub Sorted : Map Bytes V → Type 0
  Sorted [] = Unit
  Sorted ((k, v) ∷ m) = Above k m × Sorted m

  Above-lower : (i k : Bytes) (m : Map Bytes V) → bytes_lt i k ≡ true → Above k m → Above i m
  Above-lower i k [] h a = tt
  Above-lower i k ((j, w) ∷ m) h (a, b) = (bytes_lt_trans i k j h a, Above-lower i k m h b)

  insert-Above :
      (i k : Bytes) (v : V) (m : Map Bytes V)
      → bytes_lt i k ≡ true
      → Above i m
      → Above i (insert k v m)
  unfolding insert
  insert-Above i k v [] h a = (h, tt)
  insert-Above i k v ((j, w) ∷ m) h (a, b) = elim (Bool-cases (bytes_eq j k)) [
    | inl same ↦ rw same (h, b)
    | inr other ↦ elim (Bool-cases (bytes_lt k j)) [
      | inl before ↦ rw (other, before) (h, (a, b))
      | inr after ↦ rw (other, after) (a, insert-Above i k v m h b)
    ]
  ]

  pub insert-Sorted : (k : Bytes) (v : V) (m : Map Bytes V) → Sorted m → Sorted (insert k v m)
  unfolding insert
  insert-Sorted k v [] s = (tt, tt)
  insert-Sorted k v ((j, w) ∷ m) (a, s) = elim (Bool-cases (bytes_eq j k)) [
    | inl same ↦ rw same (subst (λ i. Above i m) ((bytes_eq_iff j k).0 same) a, s)
    | inr other ↦ elim (Bool-cases (bytes_lt k j)) [
      | inl before ↦ rw (other, before) ((before, Above-lower k j m before a), (a, s))
      | inr after ↦
          rw (other, after)
            (
              insert-Above j k v m (bytes_lt_total k j (differ_sym j k other) after) a,
              insert-Sorted k v m s,
            )
    ]
  ]

  pub lookup-Above : (k : Bytes) (m : Map Bytes V) → Above k m → lookup k m ≡ none
  unfolding lookup
  lookup-Above k [] a = refl
  lookup-Above k ((j, w) ∷ m) (a, b) =
      ground (arith, bytes_lt_differ k j a, lookup-Above k m b, bytes_eq_iff k j, bytes_eq_iff j k)

  erase-Above : (i k : Bytes) (m : Map Bytes V) → Above i m → Above i (erase k m)
  unfolding erase
  erase-Above i k [] a = tt
  erase-Above i k ((j, w) ∷ m) (a, b) = elim (Bool-cases (bytes_eq j k)) [
    | inl same ↦ rw same (erase-Above i k m b)
    | inr other ↦ rw other (a, erase-Above i k m b)
  ]

  pub erase-Sorted : (k : Bytes) (m : Map Bytes V) → Sorted m → Sorted (erase k m)
  unfolding erase
  erase-Sorted k [] s = tt
  erase-Sorted k ((j, w) ∷ m) (a, s) = elim (Bool-cases (bytes_eq j k)) [
    | inl same ↦ rw same (erase-Sorted k m s)
    | inr other ↦ rw other (erase-Above j k m a, erase-Sorted k m s)
  ]
