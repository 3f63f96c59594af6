-- ===== src/Mmu/Uncache/Block.antt =====
-- `mmuuncache` on a block that is still whole.
use front_mangopi_overlay.Mmu.Uncache.{
  fill_leaves, split_leaf, splitblock, uncache_pages, dcflush, mmuuncache,
}
use front_mangopi_overlay.Mmu.Uncache.Leaf.{frame, attributes}
use front_mangopi_overlay.Mmu.Uncache.View.{page0, page2, page2-agree}
use front_mangopi_overlay.Mmu.Uncache.Split.{
  piece, filled, unfilled, uncached_in, untouched, passes, update_self, update_other, is_leaf,
  piece-PieceView, seen_piece, seen-uncached, uncached,
}
use front_mangopi_overlay.Mmu.Boot.Leaf.{vpn0, vpn1, vpn2}
use front_mangopi_overlay.Mmu.Boot.State.{papte-ptr, ptepa-ptr}
use front_mangopi_overlay.Mmu.Pte.{by2pg, ptepa, pteppnmask, pte_thead_c}
use front_mangopi_overlay.Mmu.Pte.Fields.{ptlx-one, ptlx-two}
use front_mangopi_overlay.Mmu.Tree.{Mem, Role, unused, mid, low, ptr, IsTree}
use front_mangopi_overlay.Mmu.Tree.Agree.{apart, next-ptr, mid_page, low_page, root_page}
use native.Mathlib.Decide.{ℕ_discrete}
use front_mangopi_overlay.Base.Bits.{bit_and-one}
use front_mangopi_overlay.Base.{
  ap, sym, ◌∙◌, ℕ, ◌+◌, ◌*◌, ◌/◌, ◌%◌, ◌^◌, ◌<◌, ◌≤◌, ◌≡◌, ◌≢◌, inl, inr, arith, refl, Bool-cases,
  bit_and, not64, ◌==◌, ltb, leb, ◌&&◌, if◌then◌else◌, Bool, false, Option, some, update,
}

-- The pages `z0` to `z0 + n - 1` below the slots of `va`.
abbrev pub in_range : (va n w s z : ℕ) → Bool
in_range va n w s z = (w == vpn2 va && s == vpn1 va) && (leb (vpn0 va) z && ltb z (vpn0 va + n))

module _ {m : Mem} {root : ℕ} {role : ℕ → Role} (tree : IsTree m root 512 role) (va n u e l0 : ℕ)
    (is_mid : role u ≡ mid (vpn2 va)) (root_ptr : m (root + vpn2 va * 8) ≡ ptr u)
    (block : m (u + vpn1 va * 8) ≡ e) (valid : e % 2 ≡ 1) (leaf : e / 2 % 8 ≢ 0) (word : e < 2 ^ 64)
    (aligned : frame e % 512 ≡ 0) (fresh : role l0 ≡ unused) (page : l0 % 4096 ≡ 0)
    (fits : l0 < 2 ^ 56) (pos : 0 < n) (whole : va % 4096 ≡ 0) (room : vpn0 va + n ≤ 512)
    (small : va + n * by2pg < 2 ^ 64) where
  abbrev slot : ℕ
  slot = u + vpn1 va * 8

  split : Mem
  split = split_leaf slot e l0 m

  final : Mem
  final = uncache_pages n l0 va split

  split-update :
      (a : ℕ)
      → split a
        ≡ update (fill_leaves 512 l0 (ptepa e) (bit_and e (not64 pteppnmask)) m) slot (ptr l0) a
  unfolding split split_leaf
  split-update a = rw (papte-ptr l0 fits) refl

  u_page : (u % 4096 ≡ 0) × (u < 2 ^ 56)
  u_page = tree.is_page u (λ h. cc)

  -- A table of the tree is elsewhere than the new one.
  other_page : (t k : ℕ) → role t ≢ unused → k < 512 → (z : ℕ) → z < 512 → t + k * 8 ≢ l0 + z * 8
  other_page t k used hk z hz same =
      used (ap role (apart t l0 k z (tree.is_page t used).0 page hk hz same).0 ∙ fresh)

  split-kept :
      (t k : ℕ) → role t ≢ unused → k < 512 → t + k * 8 ≢ slot → split (t + k * 8) ≡ m (t + k * 8)
  split-kept t k used hk ne =
      split-update (t + k * 8)
      ∙ update_other (fill_leaves 512 l0 (ptepa e) (bit_and e (not64 pteppnmask)) m) slot (ptr l0)
          (t + k * 8) ne
      ∙ unfilled 512 l0 (ptepa e) (bit_and e (not64 pteppnmask)) m (t + k * 8)
          (other_page t k used hk)

  final-kept :
      (t k : ℕ) → role t ≢ unused → k < 512 → t + k * 8 ≢ slot → final (t + k * 8) ≡ m (t + k * 8)
  unfolding final
  final-kept t k used hk ne =
      untouched n l0 va split (t + k * 8) room small whole (other_page t k used hk)
      ∙ split-kept t k used hk ne

  u_used : role u ≢ unused
  u_used h = cc (is_mid)

  final-slot : final slot ≡ ptr l0
  unfolding final
  final-slot =
      untouched n l0 va split slot room small whole (other_page u (vpn1 va) u_used (omega arith))
      ∙ split-update slot
      ∙ update_self (fill_leaves 512 l0 (ptepa e) (bit_and e (not64 pteppnmask)) m) slot (ptr l0)

  split-piece : (z : ℕ) → z < 512 → split (l0 + z * 8) ≡ piece e z
  split-piece z hz =
      let ne : l0 + z * 8 ≢ slot =
        (λ h. other_page u (vpn1 va) u_used (omega arith) z hz (sym h)) in
      split-update (l0 + z * 8)
      ∙ update_other (fill_leaves 512 l0 (ptepa e) (bit_and e (not64 pteppnmask)) m) slot (ptr l0)
          (l0 + z * 8) ne
      ∙ filled 512 l0 e m z word aligned (omega arith) hz

  final-piece :
      (z : ℕ)
      → z < 512
      → final (l0 + z * 8) ≡ (
          if leb (vpn0 va) z && ltb z (vpn0 va + n)
          then bit_and (piece e z) (not64 pte_thead_c)
          else piece e z)
  unfolding final
  final-piece z hz = rw (sym (split-piece z hz)) (uncached_in n l0 va split z room small whole hz)

  split-run : splitblock root va (some l0) m ≡ (some l0, split)
  unfolding splitblock split
  split-run =
      let top : ptepa (m (root + vpn2 va * 8)) ≡ u =
        ap ptepa root_ptr ∙ ptepa-ptr u u_page.0 u_page.1 in
      let top_valid : (bit_and (m (root + vpn2 va * 8)) 1 == 0) ≡ false =
        ground (arith, bit_and-one (m (root + vpn2 va * 8))) in
      let e_valid : (bit_and e 1 == 0) ≡ false = ground (arith, bit_and-one e) in
      rw (ptlx-two va, ptlx-one va, top, block, top_valid, e_valid, is_leaf e leaf) refl

  ran : mmuuncache root va (n * by2pg) (some l0) m ≡ (some (dcflush va (n * by2pg)), final)
  unfolding mmuuncache final
  ran =
      let count : n * by2pg / by2pg ≡ n = omega arith in
      rw (passes n va pos whole room small, split-run, count)
        (ap (λ (s : Option ℕ × Mem). (some (dcflush va (n * by2pg)), uncache_pages n l0 va s.1))
          split-run)

  root_used : role root ≢ unused
  root_used h = cc (tree.root_role)

  final-root : (w : ℕ) → w < 512 → final (root + w * 8) ≡ m (root + w * 8)
  final-root w hw = final-kept root w root_used hw (λ h. cc (
    tree.root_role,
    is_mid,
    ap role (apart root u w (vpn1 va) (root_page tree).0 u_page.0 hw (omega arith) h).0,
  ))

  final-mid :
      (t w s : ℕ)
      → role t ≡ mid w
      → s < 512
      → ¬ ((w ≡ vpn2 va) × (s ≡ vpn1 va))
      → final (t + s * 8) ≡ m (t + s * 8)
  final-mid t w s h hs ne =
      final-kept t s (λ h'. cc (h)) hs
        (λ same.
          let (at, index) =
            apart t u s (vpn1 va) (mid_page tree t w h).0 u_page.0 hs (omega arith) same in
          ne (ground (arith, at, index), index))

  final-low : (v w s z : ℕ) → role v ≡ low w s → z < 512 → final (v + z * 8) ≡ m (v + z * 8)
  final-low v w s z h hz =
      final-kept v z (λ h'. cc (h)) hz
        (λ same. cc (
          h,
          is_mid,
          ap role
              (apart v u z (vpn1 va) (low_page tree v w s h).0 u_page.0 hz (omega arith) same).0,
        ))

  before :
      (z : ℕ) → page2 m root (vpn2 va) (vpn1 va) z ≡ some (frame e / 512 * 512 + z, attributes e)
  before z = ground (arith, next-ptr u u_page.0 u_page.1)

  after : (z : ℕ) → z < 512 → page2 final root (vpn2 va) (vpn1 va) z ≡ page0 final l0 z
  after z hz = ground (
    arith,
    final-root (vpn2 va) (omega arith),
    final-slot,
    next-ptr u u_page.0 u_page.1,
    next-ptr l0 page fits,
  )

  here :
      (z : ℕ)
      → z < 512
      → page0 final l0 z ≡ (
          if leb (vpn0 va) z && ltb z (vpn0 va + n)
          then uncached (some (frame e / 512 * 512 + z, attributes e))
          else some (frame e / 512 * 512 + z, attributes e))
  here z hz =
      let v = piece-PieceView e z word aligned hz in
      elim (Bool-cases (leb (vpn0 va) z && ltb z (vpn0 va + n))) [
        | inl inside ↦ rw (final-piece z hz, inside) (seen-uncached e z (piece e z) valid v)
        | inr outside ↦ rw (final-piece z hz, outside) (seen_piece e z (piece e z) valid v)
      ]

  same_elsewhere :
      (w s z : ℕ)
      → w < 512
      → s < 512
      → z < 512
      → ¬ ((w ≡ vpn2 va) × (s ≡ vpn1 va))
      → page2 final root w s z ≡ page2 m root w s z
  same_elsewhere w s z hw hs hz ne =
      page2-agree tree final w s z hs hw (final-root w hw) (λ t h. final-mid t w s h hs ne)
        (λ v h. final-low v w s z h hz)

  mapped :
      (w s z : ℕ)
      → w < 512
      → s < 512
      → z < 512
      → page2 final root w s z
        ≡ (if in_range va n w s z then uncached (page2 m root w s z) else page2 m root w s z)
  mapped w s z hw hs hz =
      let elsewhere : ¬ ((w ≡ vpn2 va) × (s ≡ vpn1 va))
          → page2 final root w s z
            ≡ (if in_range va n w s z then uncached (page2 m root w s z) else page2 m root w s z) =
        (λ ne.
          let out : in_range va n w s z ≡ false = ground arith in
          rw out (same_elsewhere w s z hw hs hz ne)) in
      elim (ℕ_discrete w (vpn2 va)) [
        | no ne ↦ elsewhere (λ h. ne h.0)
        | yes ew ↦ elim (ℕ_discrete s (vpn1 va)) [
          | no ne ↦ elsewhere (λ h. ne h.1)
          | yes es ↦
              let inner = leb (vpn0 va) z && ltb z (vpn0 va + n) in
              let same : in_range va n (vpn2 va) (vpn1 va) z ≡ inner = ground arith in
              rw (ew, es, same)
                (after z hz
                  ∙ here z hz
                  ∙ ap (λ (o : Option (ℕ × (ℕ × ℕ))). if inner then uncached o else o)
                      (sym (before z)))
        ]
      ]

  -- In well-formed tables, making whole pages of one 2 MB block uncached, where the block is mapped
  -- by one aligned leaf and an aligned page that is no table is at hand: the call succeeds and flushes the range, those pages lose the cacheable bit,
  -- and every address of the kernel, those of the block's other pages included, keeps its page and
  -- its other attributes.
  pub mmuuncache-uncaches :
      let (flushed, m') = mmuuncache root va (n * by2pg) (some l0) m in
      (flushed ≡ some (dcflush va (n * by2pg)))
      × ((w s z : ℕ)
          → w < 512
          → s < 512
          → z < 512
          → page2 m' root w s z
            ≡ (if in_range va n w s z then uncached (page2 m root w s z) else page2 m root w s z))
  mmuuncache-uncaches = rw ran (refl, mapped)
