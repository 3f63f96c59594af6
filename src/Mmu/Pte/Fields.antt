-- ===== src/Mmu/Pte/Fields.antt =====
-- What the page-table macros mean as arithmetic.
use front_mangopi_overlay.Mmu.Pte.{ptlx, ppn, papte, ptepa}
use front_mangopi_overlay.Base.{
  ℕ, ◌+◌, ◌*◌, ◌/◌, ◌%◌, ◌^◌, ◌<◌, bit_or, ◌<<<◌, ◌>>>◌, not64, u64, ◌≡◌, ap, refl, arith, ap, ◌∙◌,
}
use front_mangopi_overlay.Base.Bits.{bit_and-ones, add-bit_or, zero-bit_or, bit_or_parts}
use mathlib.Core.Path.{ap₂}
use front_mangopi_overlay.Base.Bits.Field.{clear_field}

pub ptlx-zero : (v : ℕ) → ptlx v 0 ≡ v / 2 ^ 12 % 512
unfolding ptlx
ptlx-zero v = bit_and-ones 9 (v / 2 ^ 12)

pub ptlx-one : (v : ℕ) → ptlx v 1 ≡ v / 2 ^ 21 % 512
unfolding ptlx
ptlx-one v = bit_and-ones 9 (v / 2 ^ 21)

pub ptlx-two : (v : ℕ) → ptlx v 2 ≡ v / 2 ^ 30 % 512
unfolding ptlx
ptlx-two v = bit_and-ones 9 (v / 2 ^ 30)

-- `~(2^k - 1)` rounds down.
pub ppn-page : (x : ℕ) → x < 2 ^ 64 → ppn x ≡ x / 4096 * 4096
unfolding ppn
ppn-page x h =
    clear_field 0 12 52 (x / 4096) (x % 4096) 0 x (not64 4095) (omega arith) refl (omega arith)
      (omega arith) (omega arith)
    ∙ omega arith

-- The attributes of an entry: the bits outside the page number.
abbrev pub IsAttr : ℕ → Type 0
IsAttr a = (a / 2 ^ 10 % 2 ^ 44 ≡ 0) × (a < 2 ^ 64)

-- `PAPTE(pa) | attr` as a sum.
pub papte-or :
    (pa attr : ℕ)
    → pa < 2 ^ 56
    → IsAttr attr
    → bit_or (papte pa) attr ≡ attr / 2 ^ 54 * 2 ^ 54 + pa / 2 ^ 12 * 2 ^ 10 + attr % 2 ^ 10
unfolding papte
papte-or pa attr h (clear, word) =
    ap₂ bit_or shifted split
    ∙ bit_or_parts 10 (pa / 2 ^ 12) 0 (attr / 2 ^ 54 * 2 ^ 44) (attr % 2 ^ 10) (omega arith)
        (omega arith)
    ∙ omega (
      arith,
      zero-bit_or (attr % 2 ^ 10),
      add-bit_or 44 (attr / 2 ^ 54) (pa / 2 ^ 12) (omega arith),
    )
  where
    shifted : u64 (pa >>> 12 <<< 10) ≡ pa / 2 ^ 12 * 2 ^ 10 + 0
    shifted = omega arith

    split : attr ≡ attr / 2 ^ 54 * 2 ^ 44 * 2 ^ 10 + attr % 2 ^ 10
    split = omega arith

-- An entry for a page holds the page, and nothing of the attributes, where those are below bit 54.
pub ptepa-papte :
    (pa attr : ℕ)
    → pa < 2 ^ 56
    → pa % 4096 ≡ 0
    → attr < 2 ^ 10
    → ptepa (bit_or (papte pa) attr) ≡ pa
unfolding ptepa
ptepa-papte pa attr h e low =
    ap (λ x. u64 (x >>> 10 <<< 12)) (papte-or pa attr h (omega arith)) ∙ omega arith
