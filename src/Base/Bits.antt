-- ===== src/Base/Bits.antt =====
-- `|` and `&` of C on words whose parts are known, as arithmetic.
mod Step
pub mod Field
use Step.{bit_or_step, bit_and_step}
use mathlib.Core.Path.{◌≡◌, refl, ap, ap₂, ◌∙◌, sym}
use native.Mathlib.Nat.{pow-suc, one-le-pow, div-eq_of_lt, mod-eq_of_lt}
use native.Mathlib.Omega.{arith}
use Prim.Native.Nat.{
  ℕ, zero, suc, ◌+◌, ◌-◌, ◌*◌, ◌/◌, ◌%◌, ◌^◌, ◌≤◌, ◌<◌, min, max, bit_and, bit_or, bit_and-bitwise,
}

-- The bound `n` is there to recur on; a number is its own bound.
or_zero_upto : (n a : ℕ) → a ≤ n → (bit_or a 0 ≡ a) × (bit_or 0 a ≡ a) × (bit_and a 0 ≡ 0)
or_zero_upto n zero h = (refl, refl, refl)
or_zero_upto zero (suc a) h = absurd (omega arith)
or_zero_upto (suc n) (suc a) h =
    let ih = or_zero_upto n (suc a / 2) (omega arith) in
    (
      omega (arith, bit_or_step (suc a) 0, ih.0),
      omega (arith, bit_or_step 0 (suc a), ih.1),
      omega (arith, bit_and_step (suc a) 0, ih.2),
    )

or_self_upto : (n a : ℕ) → a ≤ n → bit_or a a ≡ a
or_self_upto n zero h = refl
or_self_upto zero (suc a) h = absurd (omega arith)
or_self_upto (suc n) (suc a) h =
    omega (arith, bit_or_step (suc a) (suc a), or_self_upto n (suc a / 2) (omega arith))

pub bit_or_self : (a : ℕ) → bit_or a a ≡ a
bit_or_self a = or_self_upto a a (omega arith)

pub bit_or-zero : (a : ℕ) → bit_or a 0 ≡ a
bit_or-zero a = (or_zero_upto a a (omega arith)).0

pub zero-bit_or : (a : ℕ) → bit_or 0 a ≡ a
zero-bit_or a = (or_zero_upto a a (omega arith)).1

pub bit_and-zero : (a : ℕ) → bit_and a 0 ≡ 0
bit_and-zero a = (or_zero_upto a a (omega arith)).2

pub zero-bit_and : (a : ℕ) → bit_and 0 a ≡ 0
zero-bit_and a = bit_and-bitwise 0 a

double : (q k : ℕ) → q * 2 ^ suc k ≡ 2 * (q * 2 ^ k)
double q k = omega (arith, ap (λ (t : ℕ). q * t) (pow-suc 2 k))

-- Both operations work apart on what stands above and below a bit position.
pub bit_or_parts :
    (k p r q s : ℕ)
    → r < 2 ^ k
    → s < 2 ^ k
    → bit_or (p * 2 ^ k + r) (q * 2 ^ k + s) ≡ bit_or p q * 2 ^ k + bit_or r s
bit_or_parts zero p r q s hr hs = ground (arith, bit_or-zero 0)
bit_or_parts (suc k) p r q s hr hs = ground (
  arith,
  pow-suc 2 k,
  double p k,
  double q k,
  double (bit_or p q) k,
  bit_or_step r s,
  bit_or_step (p * 2 ^ suc k + r) (q * 2 ^ suc k + s),
  bit_or_parts k p (r / 2) q (s / 2),
)

pub bit_and_parts :
    (k p r q s : ℕ)
    → r < 2 ^ k
    → s < 2 ^ k
    → bit_and (p * 2 ^ k + r) (q * 2 ^ k + s) ≡ bit_and p q * 2 ^ k + bit_and r s
bit_and_parts zero p r q s hr hs = ground (arith, bit_and-zero 0)
bit_and_parts (suc k) p r q s hr hs = ground (
  arith,
  pow-suc 2 k,
  double p k,
  double q k,
  double (bit_and p q) k,
  bit_and_step r s,
  bit_and_step (p * 2 ^ suc k + r) (q * 2 ^ suc k + s),
  bit_and_parts k p (r / 2) q (s / 2),
)

-- The same for a number cut at a position.
pub bit_or_cut :
    (k a b : ℕ)
    → bit_or a b ≡ bit_or (a / 2 ^ k) (b / 2 ^ k) * 2 ^ k + bit_or (a % 2 ^ k) (b % 2 ^ k)
bit_or_cut k a b =
    ap₂ bit_or (cut a) (cut b)
    ∙ bit_or_parts k (a / 2 ^ k) (a % 2 ^ k) (b / 2 ^ k) (b % 2 ^ k) (omega (arith, one-le-pow k 2))
        (omega (arith, one-le-pow k 2))
  where
    cut : (n : ℕ) → n ≡ n / 2 ^ k * 2 ^ k + n % 2 ^ k
    cut n = omega (arith, one-le-pow k 2)

pub bit_and_cut :
    (k a b : ℕ)
    → bit_and a b ≡ bit_and (a / 2 ^ k) (b / 2 ^ k) * 2 ^ k + bit_and (a % 2 ^ k) (b % 2 ^ k)
bit_and_cut k a b =
    ap₂ bit_and (cut a) (cut b)
    ∙ bit_and_parts k (a / 2 ^ k) (a % 2 ^ k) (b / 2 ^ k) (b % 2 ^ k)
        (omega (arith, one-le-pow k 2)) (omega (arith, one-le-pow k 2))
  where
    cut : (n : ℕ) → n ≡ n / 2 ^ k * 2 ^ k + n % 2 ^ k
    cut n = omega (arith, one-le-pow k 2)

-- `x & (2^k - 1)` is the remainder by `2^k`.
ones_keep : (k r : ℕ) → r < 2 ^ k → bit_and r (2 ^ k - 1) ≡ r
ones_keep zero r h = ground (arith, bit_and-zero 0)
ones_keep (suc k) r h =
    ground (arith, pow-suc 2 k, one-le-pow k 2, bit_and_step r (2 ^ suc k - 1), ones_keep k (r / 2))

pub bit_and-ones : (k a : ℕ) → bit_and a (2 ^ k - 1) ≡ a % 2 ^ k
bit_and-ones k a =
    bit_and_cut k a (2 ^ k - 1)
    ∙ ground (
      arith,
      one-le-pow k 2,
      div-eq_of_lt {n = 2 ^ k - 1} {m = 2 ^ k} (omega (arith, one-le-pow k 2)),
      mod-eq_of_lt {n = 2 ^ k - 1} {m = 2 ^ k} (omega (arith, one-le-pow k 2)),
      bit_and-zero (a / 2 ^ k),
      ones_keep k (a % 2 ^ k),
    )

-- A single bit.
pub bit_and-one : (a : ℕ) → bit_and a 1 ≡ a % 2
bit_and-one a = omega (arith, bit_and_step a 1, bit_and-zero (a / 2))

-- A mask whose low `k` bits are clear does not see the low bits.
pub bit_and_above : (k a m : ℕ) → bit_and a (m * 2 ^ k) ≡ bit_and (a / 2 ^ k) m * 2 ^ k
bit_and_above k a m =
    ground
      (arith, one-le-pow k 2, bit_and-zero (a % 2 ^ k), bit_and_parts k (a / 2 ^ k) (a % 2 ^ k) m 0)

pub bit_and-bit : (k a : ℕ) → bit_and a (2 ^ k) ≡ a / 2 ^ k % 2 * 2 ^ k
bit_and-bit k a = ground (arith, bit_and_above k a 1, bit_and-one (a / 2 ^ k))

-- Disjoint parts add up.
pub bit_or-add : (k p r : ℕ) → r < 2 ^ k → bit_or (p * 2 ^ k) r ≡ p * 2 ^ k + r
bit_or-add k p r h = ground (arith, bit_or_parts k p 0 0 r, bit_or-zero p, zero-bit_or r)

pub add-bit_or : (k p r : ℕ) → r < 2 ^ k → bit_or r (p * 2 ^ k) ≡ p * 2 ^ k + r
add-bit_or k p r h = ground (arith, bit_or_parts k 0 r p 0, zero-bit_or p, bit_or-zero r)

pub bit_or-odd : (p a : ℕ) → a % 2 ≡ 1 → bit_or p a % 2 ≡ 1
bit_or-odd p a h = omega (arith, bit_or_step p a)
