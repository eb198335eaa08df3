-- ===== src/Prelude/Bits.antt =====
-- `|` of numbers whose bits do not overlap is `+`. The libraries have `bit_or` by its digits only.
use Prim.Native.Nat.{
  ℕ, zero, suc, ◌+◌, ◌*◌, ◌/◌, ◌%◌, ◌^◌, ◌≤◌, ◌<◌, max, bit_or, digits, bit_or-bitwise,
}
use mathlib.Core.Path.{◌≡◌, refl, ap, ◌∙◌}
use native.Mathlib.Nat.{pow-suc}
use native.Mathlib.Omega.{arith}

abbrev or_digits : ℕ → ℕ → ℕ → ℕ
or_digits n a b = digits (λ b. b) max n a b

or_digits_fuel : (n m a b : ℕ) → a ≤ n → a ≤ m → or_digits n a b ≡ or_digits m a b
or_digits_fuel zero zero a b p q = refl
or_digits_fuel zero (suc m) zero b p q = refl
or_digits_fuel zero (suc m) (suc a) b p q = absurd (omega arith)
or_digits_fuel (suc n) zero zero b p q = refl
or_digits_fuel (suc n) zero (suc a) b p q = absurd (omega arith)
or_digits_fuel (suc n) (suc m) zero b p q = refl
or_digits_fuel (suc n) (suc m) (suc a) b p q =
    omega (arith, or_digits_fuel n m (suc a / 2) (b / 2) (omega arith) (omega arith))

zero-bit_or : (b : ℕ) → bit_or 0 b ≡ b
zero-bit_or b = bit_or-bitwise 0 b

bit_or_step : (a b : ℕ) → bit_or a b ≡ bit_or (a / 2) (b / 2) * 2 + max (a % 2) (b % 2)
bit_or_step zero b = omega (arith, zero-bit_or b, zero-bit_or (b / 2))
bit_or_step (suc a) b = omega (
  arith,
  bit_or-bitwise (suc a) b,
  bit_or-bitwise (suc a / 2) (b / 2),
  or_digits_fuel a (suc a / 2) (suc a / 2) (b / 2) (omega arith) (omega arith),
)

halved :
    (a b p q : ℕ)
    → q ≡ 2 * p
    → bit_or (a / 2) (b * p) ≡ a / 2 + b * p
    → bit_or a (b * q) ≡ a + b * q
halved a b p q e ih =
    let double : b * q ≡ 2 * (b * p) = ap (λ (t : ℕ). b * t) e ∙ omega arith in
    let half : b * q / 2 ≡ b * p = omega (arith, double) in
    omega (arith, bit_or_step a (b * q), ap (bit_or (a / 2)) half, ih, double)

-- The bits of `a` stand below those of `b * 2 ^ k`.
pub bit_or_disjoint : (k a b : ℕ) → a < 2 ^ k → bit_or a (b * 2 ^ k) ≡ a + b * 2 ^ k
bit_or_disjoint zero zero b h = omega (arith, zero-bit_or (b * 1))
bit_or_disjoint zero (suc a) b h = absurd (omega arith)
bit_or_disjoint (suc k) a b h =
    let e : 2 ^ suc k ≡ 2 * 2 ^ k = pow-suc 2 k ∙ omega arith in
    halved a b (2 ^ k) (2 ^ suc k) e (bit_or_disjoint k (a / 2) b (omega (arith, e)))
