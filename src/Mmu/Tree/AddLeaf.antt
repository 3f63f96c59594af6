-- ===== src/Mmu/Tree/AddLeaf.antt =====
-- A leaf of 4 KB in a level-0 table, and one of 2 MB in a level-1 table.
use front_mangopi_overlay.Mmu.Tree.{Mem, lookup2, Role, mid, low, ptr, RootEntry, MidEntry, IsTree}
use front_mangopi_overlay.Mmu.Tree.Agree.{
  apart, next-ptr, root_page, mid_page, low_page, lookup2-agree,
}
use mathlib.Core.Path.{subst}
use native.Mathlib.Decide.{ℕ_discrete}
use front_mangopi_overlay.Base.{
  sym, ℕ, ◌+◌, ◌*◌, ◌/◌, ◌%◌, ◌^◌, ◌<◌, ◌≡◌, ◌≢◌, inl, inr, some, arith, update,
}

module _ {m : Mem} {root slots : ℕ} {role : ℕ → Role} (tree : IsTree m root slots role) where
  -- Entry `e` in slot `z` of the level-0 table at `v`, which serves slot `y` of the level-1 table
  -- at `u`, which serves root slot `x`.
  module _ (x y z u v e : ℕ) (hx : x < slots) (hy : y < 512) (hz : z < 512)
      (is_mid : role u ≡ mid x) (root_ptr : m (root + x * 8) ≡ ptr u) (is_low : role v ≡ low x y)
      (mid_ptr : m (u + y * 8) ≡ ptr v) (valid : e % 2 ≡ 1) where
    abbrev stored : Mem
    stored = update m (v + z * 8) e

    v_page : (v % 4096 ≡ 0) × (v < 2 ^ 56)
    v_page = tree.is_page v (λ e. cc)

    u_page : (u % 4096 ≡ 0) × (u < 2 ^ 56)
    u_page = tree.is_page u (λ e. cc)

    kept : (w s : ℕ) → w % 4096 ≡ 0 → w ≢ v → s < 512 → stored (w + s * 8) ≡ m (w + s * 8)
    kept w s pw ne hs = ground (arith, v_page, apart w v s z pw)

    kept_root : (w : ℕ) → w < slots → stored (root + w * 8) ≡ m (root + w * 8)
    kept_root w hw =
        kept root w (root_page tree).0 (λ e. ground (arith, tree.root_role))
          (omega (arith, tree.small))

    kept_mid : (s w r : ℕ) → role s ≡ mid w → r < 512 → stored (s + r * 8) ≡ m (s + r * 8)
    kept_mid s w r h hr = kept s r (mid_page tree s w h).0 (λ e. ground arith) hr

    pub add_leaf-IsTree : IsTree stored root slots role
    add_leaf-IsTree = record {
      root_role = tree.root_role;
      small = tree.small;
      is_page = tree.is_page;
      root_entry = λ w h. subst (RootEntry role w) (sym (kept_root w h)) (tree.root_entry w h);
      mid_entry = λ s w r h hr.
          subst (MidEntry role w r) (sym (kept_mid s w r h hr)) (tree.mid_entry s w r h hr);
    }

    pub add_leaf-lookup_self : lookup2 stored root x y z ≡ some e
    add_leaf-lookup_self = ground (
      arith,
      kept_root x hx,
      kept_mid u x y is_mid hy,
      next-ptr u u_page.0 u_page.1,
      next-ptr v v_page.0 v_page.1,
    )

    pub add_leaf-lookup_ne :
        (w s r : ℕ)
        → w < slots
        → s < 512
        → r < 512
        → ¬ ((w ≡ x) × (s ≡ y) × (r ≡ z))
        → lookup2 stored root w s r ≡ lookup2 m root w s r
    add_leaf-lookup_ne w s r hw hs hr ne =
        lookup2-agree tree stored w s r hs hw (kept_root w hw) (λ a h. kept_mid a w s h hs) kept_low
      where
        kept_low : (a : ℕ) → role a ≡ low w s → stored (a + r * 8) ≡ m (a + r * 8)
        kept_low a h = elim (ℕ_discrete a v) [
          | no other ↦ kept a r (low_page tree a w s h).0 other hr
          | yes same ↦ ground arith
        ]

  -- Entry `e`, a leaf, in slot `y` of the level-1 table at `u`, which serves root slot `x`.
  module _ (x y u e : ℕ) (hx : x < slots) (hy : y < 512) (is_mid : role u ≡ mid x)
      (root_ptr : m (root + x * 8) ≡ ptr u) (valid : e % 2 ≡ 1) (leaf : e / 2 % 8 ≢ 0) where
    abbrev blocked : Mem
    blocked = update m (u + y * 8) e

    mid_page_u : (u % 4096 ≡ 0) × (u < 2 ^ 56)
    mid_page_u = tree.is_page u (λ e. cc)

    spared : (w s : ℕ) → w % 4096 ≡ 0 → w ≢ u → s < 512 → blocked (w + s * 8) ≡ m (w + s * 8)
    spared w s pw ne hs = ground (arith, mid_page_u, apart w u s y pw)

    spared_root : (w : ℕ) → w < slots → blocked (root + w * 8) ≡ m (root + w * 8)
    spared_root w hw =
        spared root w (root_page tree).0 (λ e. ground (arith, tree.root_role))
          (omega (arith, tree.small))

    block_entry : (v w s : ℕ) → role v ≡ mid w → s < 512 → MidEntry role w s (blocked (v + s * 8))
    block_entry v w s h hs = elim (ℕ_discrete v u) [
      | no ne ↦
          subst (MidEntry role w s) (sym (spared v s (mid_page tree v w h).0 ne hs))
            (tree.mid_entry v w s h hs)
      | yes same ↦ elim (ℕ_discrete s y) [
        | yes at ↦ inr (inl (ground arith, ground arith))
        | no ne ↦ subst (MidEntry role w s) (ground arith) (tree.mid_entry v w s h hs)
      ]
    ]

    pub add_block-IsTree : IsTree blocked root slots role
    add_block-IsTree = record {
      root_role = tree.root_role;
      small = tree.small;
      is_page = tree.is_page;
      root_entry = λ w h. subst (RootEntry role w) (sym (spared_root w h)) (tree.root_entry w h);
      mid_entry = block_entry;
    }

    pub add_block-lookup_self : (z : ℕ) → lookup2 blocked root x y z ≡ some e
    add_block-lookup_self z = ground (arith, spared_root x hx, next-ptr u mid_page_u.0 mid_page_u.1)

    pub add_block-lookup_ne :
        (w s r : ℕ)
        → w < slots
        → s < 512
        → r < 512
        → ¬ ((w ≡ x) × (s ≡ y))
        → lookup2 blocked root w s r ≡ lookup2 m root w s r
    add_block-lookup_ne w s r hw hs hr ne =
        lookup2-agree tree blocked w s r hs hw (spared_root w hw) spared_mid
          (λ a h. spared a r (low_page tree a w s h).0 (λ e. ground arith) hr)
      where
        spared_mid : (a : ℕ) → role a ≡ mid w → blocked (a + s * 8) ≡ m (a + s * 8)
        spared_mid a h = elim (ℕ_discrete a u) [
          | no other ↦ spared a s (mid_page tree a w h).0 other hs
          | yes same ↦ ground arith
        ]
