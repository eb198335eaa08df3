-- ===== src/Prelude/Map.antt =====
-- `std::map` and `std::set`: association lists kept in the order of the keys, as the program
-- iterates over them. The laws below need no sortedness, so they serve `std::unordered_map` too.
use Prim.Native.Nat.{ℕ}
use mathlib.Core.Path.{◌≡◌, refl}
use mathlib.Core.Logic.{◌↔◌}
use mathlib.Core.Bool.{Bool, true}
use mathlib.Core.Option.{Option, none, some}
use mathlib.Core.List.{List, [], ◌∷◌}
use native.Mathlib.Omega.{arith}
use concurrent_transactional.Prelude.Tests.{ltb, ◌==◌, ==_iff, if◌then◌else◌}
use concurrent_transactional.Prelude.Text.{Bytes, bytes_eq, bytes_lt, bytes_eq_iff}

-- What a container needs of its keys.
pub record Order (K : Type 0) : Type 0 where
  pub eq : K → K → Bool
  pub lt : K → K → Bool
  pub eq_iff : (a b : K) → (eq a b ≡ true) ↔ (a ≡ b)

instance abbrev pub bytes_order : Order Bytes
bytes_order = record { eq = bytes_eq; lt = bytes_lt; eq_iff = bytes_eq_iff }

instance abbrev pub nat_order : Order ℕ
nat_order = record { eq = ◌==◌; lt = ltb; eq_iff = ==_iff }

abbrev pub Map : Type 0 → Type 0 → Type 0
Map K V = List (K × V)

module _ {K V : Type 0} ⦃o : Order K⦄ where
  unfoldable pub lookup : K → Map K V → Option V
  lookup k [] = none
  lookup k ((j, v) ∷ m) = if o.eq j k then some v else lookup k m

  -- `m[k] = v`
  unfoldable pub insert : K → V → Map K V → Map K V
  insert k v [] = (k, v) ∷ []
  insert k v ((j, w) ∷ m) =
      let rest = insert k v m in
      if o.eq j k then (k, v) ∷ m else if o.lt k j then (k, v) ∷ (j, w) ∷ m else (j, w) ∷ rest

  unfoldable pub erase : K → Map K V → Map K V
  erase k [] = []
  erase k ((j, w) ∷ m) = let rest = erase k m in if o.eq j k then rest else (j, w) ∷ rest

  pub lookup-insert :
      (k j : K) (v : V) (m : Map K V)
      → lookup j (insert k v m) ≡ (if o.eq k j then some v else lookup j m)
  unfolding lookup insert
  lookup-insert k j v [] = refl
  lookup-insert k j v ((i, w) ∷ m) =
      ground (arith, o.eq_iff k j, o.eq_iff i k, o.eq_iff i j, lookup-insert k j v m)

  pub lookup-erase :
      (k j : K) (m : Map K V) → lookup j (erase k m) ≡ (if o.eq k j then none else lookup j m)
  unfolding lookup erase
  lookup-erase k j [] = ground arith
  lookup-erase k j ((i, w) ∷ m) =
      ground (arith, o.eq_iff k j, o.eq_iff i k, o.eq_iff i j, lookup-erase k j m)
