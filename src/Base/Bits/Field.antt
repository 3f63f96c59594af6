-- ===== src/Base/Bits/Field.antt =====
-- Reading, clearing and setting the field of `w` bits at bit `k` of a word.
use mathlib.Core.Path.{◌≡◌, ap₂, ◌∙◌}
use native.Mathlib.Nat.{one-le-pow, mod-eq_of_lt}
use native.Mathlib.Omega.{arith}
use Prim.Native.Nat.{ℕ, ◌+◌, ◌-◌, ◌*◌, ◌^◌, ◌<◌, bit_and, bit_or}
use front_mangopi_overlay.Base.Bits.{
  bit_or-zero, zero-bit_or, bit_and-zero, bit_or_parts, bit_and_parts, bit_and-ones,
}

-- `a & ~(mask << k)`, for a word that has `h`, `f` and `l` above, in and below the field.
pub clear_field :
    (k w t h f l a m : ℕ)
    → a ≡ (h * 2 ^ w + f) * 2 ^ k + l
    → m ≡ ((2 ^ t - 1) * 2 ^ w) * 2 ^ k + (2 ^ k - 1)
    → h < 2 ^ t
    → f < 2 ^ w
    → l < 2 ^ k
    → bit_and a m ≡ (h * 2 ^ w) * 2 ^ k + l
clear_field k w t h f l a m ea em ht fw lk =
    ap₂ bit_and ea em
    ∙ bit_and_parts k (h * 2 ^ w + f) l ((2 ^ t - 1) * 2 ^ w) (2 ^ k - 1) lk
        (omega (arith, one-le-pow k 2))
    ∙ ap₂ (λ x y. x * 2 ^ k + y) above (bit_and-ones k l ∙ mod-eq_of_lt lk)
  where
    above : bit_and (h * 2 ^ w + f) ((2 ^ t - 1) * 2 ^ w) ≡ h * 2 ^ w
    above = ground (
      arith,
      one-le-pow w 2,
      bit_and_parts w h f (2 ^ t - 1) 0,
      bit_and-ones t h,
      mod-eq_of_lt ht,
      bit_and-zero f,
    )

-- `a | v << k`, for a word whose field is clear.
pub fill_field :
    (k w h v l a : ℕ)
    → a ≡ (h * 2 ^ w) * 2 ^ k + l
    → v < 2 ^ w
    → l < 2 ^ k
    → bit_or a (v * 2 ^ k) ≡ (h * 2 ^ w + v) * 2 ^ k + l
fill_field k w h v l a ea vw lk = ground (
  arith,
  one-le-pow k 2,
  one-le-pow w 2,
  bit_or_parts k (h * 2 ^ w) l v 0,
  bit_or-zero l,
  bit_or_parts w h 0 0 v,
  bit_or-zero h,
  zero-bit_or v,
)

-- `a & ~(mask << k) | v << k`.
pub replace_field :
    (k w t h f l v a m : ℕ)
    → a ≡ (h * 2 ^ w + f) * 2 ^ k + l
    → m ≡ ((2 ^ t - 1) * 2 ^ w) * 2 ^ k + (2 ^ k - 1)
    → h < 2 ^ t
    → f < 2 ^ w
    → l < 2 ^ k
    → v < 2 ^ w
    → bit_or (bit_and a m) (v * 2 ^ k) ≡ (h * 2 ^ w + v) * 2 ^ k + l
replace_field k w t h f l v a m ea em ht fw lk vw =
    fill_field k w h v l (bit_and a m) (clear_field k w t h f l a m ea em ht fw lk) vw lk

-- `a | v << k`, whatever the field held, where `v` is all ones.
pub fill_ones :
    (k w h f l a : ℕ)
    → a ≡ (h * 2 ^ w + f) * 2 ^ k + l
    → f < 2 ^ w
    → l < 2 ^ k
    → bit_or f (2 ^ w - 1) ≡ 2 ^ w - 1
    → bit_or a ((2 ^ w - 1) * 2 ^ k) ≡ (h * 2 ^ w + (2 ^ w - 1)) * 2 ^ k + l
fill_ones k w h f l a ea fw lk ones = ground (
  arith,
  one-le-pow k 2,
  one-le-pow w 2,
  bit_or_parts k (h * 2 ^ w + f) l (2 ^ w - 1) 0,
  bit_or-zero l,
  bit_or_parts w h f 0 (2 ^ w - 1),
  bit_or-zero h,
)
