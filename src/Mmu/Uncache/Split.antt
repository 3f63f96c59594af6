-- ===== src/Mmu/Uncache/Split.antt =====
-- The entries of a block that is split and made uncached in part.
use front_mangopi_overlay.Mmu.Uncache.{fill_leaves, uncache_pages, uncachable}
use front_mangopi_overlay.Mmu.Uncache.Leaf.{frame, attributes, split_entry, uncached_entry}
use front_mangopi_overlay.Mmu.Uncache.View.{seen}
use front_mangopi_overlay.Mmu.Boot.Leaf.{vpn0}
use front_mangopi_overlay.Mmu.Pte.{
  by2pg, pteread, ptewrite, pteexec, pglsz, ptlx, ptepa, pteppnmask, pte_thead_c,
}
use front_mangopi_overlay.Mmu.Pte.Fields.{ptlx-zero}
use front_mangopi_overlay.Mmu.Tree.{Mem}
use native.Mathlib.Decide.{ℕ_discrete}
use front_mangopi_overlay.Base.Bits.{bit_and_cut, bit_and-ones, bit_or_parts, bit_or-zero}
use mathlib.Core.Path.{ap₂}
use front_mangopi_overlay.Base.Bits.Field.{clear_field}
use front_mangopi_overlay.Base.{
  ap, ◌∙◌, ℕ, zero, suc, ◌+◌, ◌-◌, ◌*◌, ◌/◌, ◌%◌, ◌^◌, ◌<◌, ◌≤◌, ◌≡◌, ◌≢◌, arith, refl, bit_and,
  bit_or, not64, u64, ◌==◌, ltb, leb, ◌&&◌, if◌then◌else◌, true, false, Option, none, some, update,
}

-- The entry that the block `e` becomes for its page `i`.
abbrev pub piece : (e i : ℕ) → ℕ
piece e i = e / 2 ^ 54 * 2 ^ 54 + (frame e + i) * 2 ^ 10 + e % 2 ^ 10

pub filled :
    (n l0 e : ℕ) (m : Mem) (i : ℕ)
    → e < 2 ^ 64
    → frame e % 512 ≡ 0
    → n ≤ 512
    → i < n
    → fill_leaves n l0 (ptepa e) (bit_and e (not64 pteppnmask)) m (l0 + i * 8) ≡ piece e i
unfolding fill_leaves
filled zero l0 e m i h al hn hi = absurd (omega arith)
filled (suc n) l0 e m i h al hn hi = elim (ℕ_discrete n i) [
  | yes same ↦ ground (arith, split_entry e n h al)
  | no ne ↦ ground (arith, filled n l0 e m i h al)
]

pub unfilled :
    (n l0 pa attr : ℕ) (m : Mem) (a : ℕ)
    → ((i : ℕ) → i < n → a ≢ l0 + i * 8)
    → fill_leaves n l0 pa attr m a ≡ m a
unfolding fill_leaves
unfilled zero l0 pa attr m a out = refl
unfilled (suc n) l0 pa attr m a out =
    ground (arith, out n, unfilled n l0 pa attr m a (λ i hi. out i (omega arith)))

-- Pages `z0` to `z0 + n - 1` of the table at `l0` are made uncached.
pub uncached_in :
    (n l0 va : ℕ) (m : Mem) (z : ℕ)
    → vpn0 va + n ≤ 512
    → va + n * by2pg < 2 ^ 64
    → va % 4096 ≡ 0
    → z < 512
    → uncache_pages n l0 va m (l0 + z * 8) ≡ (
        if leb (vpn0 va) z && ltb z (vpn0 va + n)
        then bit_and (m (l0 + z * 8)) (not64 pte_thead_c)
        else m (l0 + z * 8))
unfolding uncache_pages
uncached_in zero l0 va m z room small al hz = ground arith
uncached_in (suc n) l0 va m z room small al hz =
    let before = uncached_in n l0 va m z (omega arith) (omega arith) al hz in
    let index : ptlx (u64 (va + n * by2pg)) 0 ≡ vpn0 va + n =
      ptlx-zero (u64 (va + n * by2pg)) ∙ omega arith in
    let here = uncached_in n l0 va m (vpn0 va + n) (omega arith) (omega arith) al (omega arith) in
    rw index (ground arith)

pub untouched :
    (n l0 va : ℕ) (m : Mem) (a : ℕ)
    → vpn0 va + n ≤ 512
    → va + n * by2pg < 2 ^ 64
    → va % 4096 ≡ 0
    → ((z : ℕ) → z < 512 → a ≢ l0 + z * 8)
    → uncache_pages n l0 va m a ≡ m a
unfolding uncache_pages
untouched zero l0 va m a room small al out = refl
untouched (suc n) l0 va m a room small al out =
    let before = untouched n l0 va m a (omega arith) (omega arith) al out in
    let index : ptlx (u64 (va + n * by2pg)) 0 ≡ vpn0 va + n =
      ptlx-zero (u64 (va + n * by2pg)) ∙ omega arith in
    rw index (ground (arith, out (vpn0 va + n)))

-- Whole pages inside one block pass the guards.
pub passes :
    (n va : ℕ)
    → 0 < n
    → va % 4096 ≡ 0
    → vpn0 va + n ≤ 512
    → va + n * by2pg < 2 ^ 64
    → uncachable va (n * by2pg) ≡ true
unfolding uncachable pglsz
passes n va pos al room small =
    let low : bit_and (bit_or va (n * by2pg)) (by2pg - 1) ≡ 0 =
      bit_and-ones 12 (bit_or va (n * by2pg))
      ∙ ap (λ t. t % 2 ^ 12)
          (ap₂ bit_or (omega arith) (omega arith)
            ∙ bit_or_parts 12 (va / 4096) 0 n 0 (omega arith) (omega arith))
      ∙ omega (arith, bit_or-zero 0) in
    let first : bit_and va (not64 (2 ^ 21 - 1)) ≡ va / 2 ^ 21 * 2 ^ 21 =
      clear_field 0 21 43 (va / 2 ^ 21) (va % 2 ^ 21) 0 va (not64 (2 ^ 21 - 1)) (omega arith) refl
        (omega arith) (omega arith) (omega arith)
      ∙ omega arith in
    let last : u64 (va + n * by2pg + 2 ^ 64 - 1) ≡ va + n * by2pg - 1 = omega arith in
    let l = va + n * by2pg - 1 in
    let second : bit_and l (not64 (2 ^ 21 - 1)) ≡ l / 2 ^ 21 * 2 ^ 21 =
      clear_field 0 21 43 (l / 2 ^ 21) (l % 2 ^ 21) 0 l (not64 (2 ^ 21 - 1)) (omega arith) refl
        (omega arith) (omega arith) (omega arith)
      ∙ omega arith in
    let same : l / 2 ^ 21 ≡ va / 2 ^ 21 = omega arith in
    ground (arith, low, first, last, second, same)

-- The cacheable bit of a mapped page is off.
abbrev pub uncached : Option (ℕ × (ℕ × ℕ)) → Option (ℕ × (ℕ × ℕ))
uncached none = none
uncached (some (page, (flags, type))) = some (page, (flags, type / 2 ^ 9 * 2 ^ 9 + type % 2 ^ 8))

pub update_self : (m : Mem) (a v : ℕ) → update m a v a ≡ v
update_self m a v = ground arith

pub update_other : (m : Mem) (a v b : ℕ) → b ≢ a → update m a v b ≡ m b
update_other m a v b ne = ground arith

-- `splitblock` takes an entry with any of R, W and X for a block.
pub is_leaf :
    (e : ℕ) → e / 2 % 8 ≢ 0 → (bit_and e (bit_or (bit_or pteread ptewrite) pteexec) == 0) ≡ false
is_leaf e leaf = ground (arith, bit_and_cut 1 e 14, bit_and-ones 3 (e / 2))

-- A page's entry, read back.
pub record PieceView (e z p : ℕ) : Type 0 where
  at_page : frame p ≡ frame e / 512 * 512 + z
  flags : p % 2 ^ 10 ≡ e % 2 ^ 10
  type : p / 2 ^ 54 ≡ e / 2 ^ 54
  word : p < 2 ^ 64

pub piece-PieceView :
    (e z : ℕ) → e < 2 ^ 64 → frame e % 512 ≡ 0 → z < 512 → PieceView e z (piece e z)
piece-PieceView e z h al hz = record {
  at_page = omega arith;
  flags = omega arith;
  type = omega arith;
  word = omega arith;
}

pub seen_piece :
    (e z p : ℕ)
    → e % 2 ≡ 1
    → PieceView e z p
    → seen p ≡ some (frame e / 512 * 512 + z, attributes e)
seen_piece e z p valid v =
    let odd : (p % 2 == 0) ≡ false = ground (arith, v.flags) in
    rw (odd, v.at_page, v.flags, v.type) refl

pub seen-uncached :
    (e z p : ℕ)
    → e % 2 ≡ 1
    → PieceView e z p
    → seen (bit_and p (not64 pte_thead_c)) ≡ uncached (some (frame e / 512 * 512 + z, attributes e))
seen-uncached e z p valid v =
    let q = p / 2 ^ 63 * 2 * 2 ^ 62 + p % 2 ^ 62 in
    let flags : q % 2 ^ 10 ≡ e % 2 ^ 10 = omega (arith, v.flags) in
    let odd : (q % 2 == 0) ≡ false = ground (arith, flags) in
    let at_page : frame q ≡ frame e / 512 * 512 + z = omega (arith, v.at_page) in
    let type : q / 2 ^ 54 ≡ e / 2 ^ 54 / 2 ^ 9 * 2 ^ 9 + e / 2 ^ 54 % 2 ^ 8 =
      omega (arith, v.type) in
    rw (uncached_entry p v.word) (rw (odd, at_page, flags, type) refl)
