-- ===== src/Mmu/Tree/AddMid.antt =====
-- A level-1 table for an empty root slot.
use front_mangopi_overlay.Mmu.Tree.{
  Mem, lookup2, Role, unused, mid, ptr, RootEntry, MidEntry, IsTree,
}
use mathlib.Core.Path.{subst}
use native.Mathlib.Decide.{ℕ_discrete}
use front_mangopi_overlay.Base.{
  ◌∙◌, sym, ℕ, ◌+◌, ◌*◌, ◌%◌, ◌^◌, ◌<◌, ◌≡◌, ◌≢◌, inl, inr, none, arith, update,
}
use front_mangopi_overlay.Mmu.Tree.Agree.{
  apart, next-ptr, RootEntry-grow, MidEntry-grow, root_page, mid_page, low_page, lookup2-agree,
}

module _ {m : Mem} {root slots : ℕ} {role : ℕ → Role} (tree : IsTree m root slots role) where
  -- A fresh page for the level-1 table of root slot `x`.
  module _ (x t : ℕ) (in_range : x < slots) (invalid : m (root + x * 8) % 2 ≡ 0)
      (fresh : role t ≡ unused) (page : t % 4096 ≡ 0) (fits : t < 2 ^ 56)
      (zeroed : (y : ℕ) → y < 512 → m (t + y * 8) ≡ 0) where
    kept :
        (u y : ℕ)
        → u % 4096 ≡ 0
        → u ≢ root
        → y < 512
        → update m (root + x * 8) (ptr t) (u + y * 8) ≡ m (u + y * 8)
    kept u y pu ne hy = ground (arith, tree.small, root_page tree, apart u root y x pu)

    kept_root : (w : ℕ) → w ≢ x → update m (root + x * 8) (ptr t) (root + w * 8) ≡ m (root + w * 8)
    kept_root w ne = ground arith

    new_root : update m (root + x * 8) (ptr t) (root + x * 8) ≡ ptr t
    new_root = ground arith

    t_ne_root : t ≢ root
    t_ne_root e = ground (arith, tree.root_role)

    root_entry :
        (w : ℕ)
        → w < slots
        → RootEntry (update role t (mid x)) w (update m (root + x * 8) (ptr t) (root + w * 8))
    root_entry w h = elim (ℕ_discrete w x) [
      | yes same ↦ inr (t, ground arith, ground arith)
      | no ne ↦
          subst (RootEntry (update role t (mid x)) w) (sym (kept_root w ne))
            (RootEntry-grow t w (m (root + w * 8)) (mid x) fresh (tree.root_entry w h))
    ]

    mid_entry :
        (u w y : ℕ)
        → update role t (mid x) u ≡ mid w
        → y < 512
        → MidEntry (update role t (mid x)) w y (update m (root + x * 8) (ptr t) (u + y * 8))
    mid_entry u w y h hy = elim (ℕ_discrete u t) [
      | yes same ↦ inl (ground (arith, kept t y page t_ne_root hy, zeroed y hy))
      | no ne ↦
          let is_mid : role u ≡ mid w = ground arith in
          let here = mid_page tree u w is_mid in
          subst (MidEntry (update role t (mid x)) w y) (sym (kept u y here.0 here.1 hy))
            (MidEntry-grow t w y (m (u + y * 8)) (mid x) fresh (tree.mid_entry u w y is_mid hy))
    ]

    pub add_mid-IsTree : IsTree (update m (root + x * 8) (ptr t)) root slots (update role t (mid x))
    add_mid-IsTree = record {
      root_role = ground (arith, tree.root_role);
      small = tree.small;
      is_page = λ u h. ground (arith, tree.is_page u);
      root_entry = root_entry;
      mid_entry = mid_entry;
    }

    empty_below : (y z : ℕ) → y < 512 → lookup2 (update m (root + x * 8) (ptr t)) root x y z ≡ none
    empty_below y z hy =
        ground (arith, new_root, next-ptr t page fits, kept t y page t_ne_root hy, zeroed y hy)

    -- No mapping appears, and none is lost.
    pub add_mid-lookup :
        (w y z : ℕ)
        → w < slots
        → y < 512
        → z < 512
        → lookup2 (update m (root + x * 8) (ptr t)) root w y z ≡ lookup2 m root w y z
    add_mid-lookup w y z hw hy hz = elim (ℕ_discrete w x) [
      | yes same ↦ rw same (empty_below y z hy ∙ ground arith)
      | no ne ↦
          lookup2-agree tree (update m (root + x * 8) (ptr t)) w y z hy hw (kept_root w ne)
            (λ u h. kept u y (mid_page tree u w h).0 (mid_page tree u w h).1 hy)
            (λ v h. kept v z (low_page tree v w y h).0 (low_page tree v w y h).1 hz)
    ]
