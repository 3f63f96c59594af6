-- ===== src/Base/Bits/Step.antt =====
-- One equation for the lowest digit of `|` and of `&`, from the recursion on binary digits that
-- the native operations stand for.
use Prim.Native.Nat.{
  ℕ, zero, suc, ◌+◌, ◌*◌, ◌/◌, ◌%◌, ◌≤◌, min, max, digits, bitwise, bit_and, bit_or,
  bit_and-bitwise, bit_or-bitwise,
}
use native.Mathlib.Omega.{arith}
use native.Mathlib.Decide.{dec_le}
use mathlib.Core.Path.{◌≡◌, refl, ap, ◌∙◌}

module _ (alone : ℕ → ℕ) (digit : ℕ → ℕ → ℕ) where
  one_more : (n a b : ℕ) → a ≤ n → digits alone digit (suc n) a b ≡ digits alone digit n a b
  one_more n zero b h = at_zero n
    where
      at_zero : (k : ℕ) → digits alone digit (suc k) zero b ≡ digits alone digit k zero b
      at_zero zero = refl
      at_zero (suc k) = refl
  one_more zero (suc a) b h = absurd (omega arith)
  one_more (suc n) (suc a) b h =
      ap (λ t. t * 2 + digit (suc a % 2) (b % 2)) (one_more n (suc a / 2) (b / 2) (omega arith))

  -- Fuel beyond the first number changes nothing.
  enough : (n a b : ℕ) → a ≤ n → digits alone digit n a b ≡ digits alone digit a a b
  enough zero zero b h = refl
  enough zero (suc a) b h = absurd (omega arith)
  enough (suc n) a b h = elim (dec_le a n) [
    | yes p ↦ one_more n a b p ∙ enough n a b p
    | no q ↦ (let e : suc n ≡ a = omega arith in rw e)
  ]

  low_digit :
      (a b : ℕ)
      → bitwise alone digit (suc a) b
        ≡ bitwise alone digit (suc a / 2) (b / 2) * 2 + digit (suc a % 2) (b % 2)
  low_digit a b =
      ap (λ t. t * 2 + digit (suc a % 2) (b % 2)) (enough a (suc a / 2) (b / 2) (omega arith))

pub bit_or_step : (p q : ℕ) → bit_or p q ≡ 2 * bit_or (p / 2) (q / 2) + max (p % 2) (q % 2)
bit_or_step zero q = simp bit_or-bitwise (omega arith)
bit_or_step (suc p) q = omega (
  arith,
  bit_or-bitwise (suc p) q,
  bit_or-bitwise (suc p / 2) (q / 2),
  low_digit (λ l. l) max p q,
)

pub bit_and_step : (p q : ℕ) → bit_and p q ≡ 2 * bit_and (p / 2) (q / 2) + min (p % 2) (q % 2)
bit_and_step zero q = simp bit_and-bitwise (omega arith)
bit_and_step (suc p) q = omega (
  arith,
  bit_and-bitwise (suc p) q,
  bit_and-bitwise (suc p / 2) (q / 2),
  low_digit (λ l. 0) min p q,
)
