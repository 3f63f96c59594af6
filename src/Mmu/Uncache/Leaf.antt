-- ===== src/Mmu/Uncache/Leaf.antt =====
-- The entries that `splitblock` and `mmuuncache` write.
use front_mangopi_overlay.Mmu.Pte.{by2pg, papte, ptepa, pteppnmask, pte_thead_c}
use front_mangopi_overlay.Base.Bits.{
  bit_or_self, bit_or_parts, bit_or_cut, bit_or-zero, zero-bit_or,
}
use front_mangopi_overlay.Base.Bits.Field.{clear_field}
use mathlib.Core.Path.{ap₂}
use front_mangopi_overlay.Base.{
  ap, ◌∙◌, ℕ, ◌+◌, ◌*◌, ◌/◌, ◌%◌, ◌^◌, ◌<◌, ◌≡◌, bit_and, bit_or, not64, u64, ◌<<<◌, ◌>>>◌, arith,
  refl,
}

-- The page number of an entry, and its other bits: 9:0 and 63:54.
abbrev pub frame : ℕ → ℕ
frame e = e / 2 ^ 10 % 2 ^ 44

abbrev pub attributes : ℕ → ℕ × ℕ
attributes e = (e % 2 ^ 10, e / 2 ^ 54)

-- `x | y` where `x` is the low byte of `y`.
low_byte_or : (h : ℕ) → bit_or (h % 2 ^ 8) h ≡ h
low_byte_or h =
    bit_or_cut 8 (h % 2 ^ 8) h
    ∙ ap₂ (λ x y. x * 2 ^ 8 + y)
        (ap (λ t. bit_or t (h / 2 ^ 8)) (omega arith) ∙ zero-bit_or (h / 2 ^ 8))
        (ap (λ t. bit_or t (h % 2 ^ 8)) (omega arith) ∙ bit_or_self (h % 2 ^ 8))
    ∙ omega arith

keep_attr : (e : ℕ) → e < 2 ^ 64 → bit_and e (not64 pteppnmask) ≡ e / 2 ^ 54 * 2 ^ 54 + e % 2 ^ 10
keep_attr e h =
    clear_field 10 44 10 (e / 2 ^ 54) (frame e) (e % 2 ^ 10) e (not64 pteppnmask) (omega arith) refl
      (omega arith) (omega arith) (omega arith)
    ∙ omega arith

-- Clearing the cacheable bit.
pub uncached_entry :
    (e : ℕ) → e < 2 ^ 64 → bit_and e (not64 pte_thead_c) ≡ (e / 2 ^ 63 * 2) * 2 ^ 62 + e % 2 ^ 62
uncached_entry e h =
    clear_field 62 1 1 (e / 2 ^ 63) (e / 2 ^ 62 % 2) (e % 2 ^ 62) e (not64 pte_thead_c)
      (omega arith) refl (omega arith) (omega arith) (omega arith)

shifted :
    (e i : ℕ)
    → e < 2 ^ 64
    → frame e % 512 ≡ 0
    → i < 512
    → papte (u64 (ptepa e + i * by2pg)) ≡ (e / 2 ^ 54 % 2 ^ 8 * 2 ^ 44 + (frame e + i)) * 2 ^ 10
unfolding papte ptepa
shifted e i h al hi =
    let f = frame e in
    let hh = e / 2 ^ 54 in
    let whole : e / 2 ^ 10 ≡ hh * 2 ^ 44 + f = omega arith in
    let pa : u64 (e >>> 10 <<< 12) ≡ (hh % 2 ^ 8 * 2 ^ 44 + f) * 2 ^ 12 = omega (arith, whole) in
    ap (λ t. u64 (u64 (t + i * by2pg) >>> 12 <<< 10)) pa ∙ omega arith

-- Each entry that `splitblock` writes has the block's attributes, and its page number is the next
-- one: the attribute bits that `PTEPA` leaves in the address fall where `attr` has them too.
pub split_entry :
    (e i : ℕ)
    → e < 2 ^ 64
    → frame e % 512 ≡ 0
    → i < 512
    → bit_or (papte (u64 (ptepa e + i * by2pg))) (bit_and e (not64 pteppnmask))
      ≡ e / 2 ^ 54 * 2 ^ 54 + (frame e + i) * 2 ^ 10 + e % 2 ^ 10
split_entry e i h al hi =
    let hh = e / 2 ^ 54 in
    let g = frame e + i in
    let low = e % 2 ^ 10 in
    ap₂ bit_or (shifted e i h al hi ∙ omega arith) (keep_attr e h ∙ omega arith)
    ∙ bit_or_parts 10 (hh % 2 ^ 8 * 2 ^ 44 + g) 0 (hh * 2 ^ 44 + 0) low (omega arith) (omega arith)
    ∙ ap₂ (λ x y. x * 2 ^ 10 + y) (bit_or_parts 44 (hh % 2 ^ 8) g hh 0 (omega arith) (omega arith))
        (zero-bit_or low)
    ∙ ap₂ (λ x y. (x * 2 ^ 44 + y) * 2 ^ 10 + low) (low_byte_or hh) (bit_or-zero g)
    ∙ omega arith
