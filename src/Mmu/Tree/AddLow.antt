-- ===== src/Mmu/Tree/AddLow.antt =====
-- A level-0 table for an empty slot of a level-1 table.
use front_mangopi_overlay.Mmu.Tree.{
  Mem, lookup2, Role, unused, mid, low, ptr, RootEntry, MidEntry, IsTree,
}
use front_mangopi_overlay.Mmu.Tree.Agree.{
  apart, next-ptr, RootEntry-grow, MidEntry-grow, root_page, mid_page, low_page, lookup2-agree,
}
use mathlib.Core.Path.{subst}
use native.Mathlib.Decide.{ℕ_discrete}
use front_mangopi_overlay.Base.{
  ◌∙◌, sym, ℕ, ◌+◌, ◌*◌, ◌%◌, ◌^◌, ◌<◌, ◌≡◌, ◌≢◌, inr, none, arith, update,
}

module _ {m : Mem} {root slots : ℕ} {role : ℕ → Role} (tree : IsTree m root slots role) where
  -- A fresh page for slot `y` of the level-1 table at `u`, which serves root slot `x`.
  module _ (x y u t : ℕ) (hx : x < slots) (hy : y < 512) (is_mid : role u ≡ mid x)
      (root_ptr : m (root + x * 8) ≡ ptr u) (invalid : m (u + y * 8) % 2 ≡ 0)
      (fresh : role t ≡ unused) (page : t % 4096 ≡ 0) (fits : t < 2 ^ 56)
      (zeroed : (z : ℕ) → z < 512 → m (t + z * 8) ≡ 0) where
    abbrev stored : Mem
    stored = update m (u + y * 8) (ptr t)

    u_page : (u % 4096 ≡ 0) × (u < 2 ^ 56)
    u_page = tree.is_page u (λ e. cc)

    kept : (v z : ℕ) → v % 4096 ≡ 0 → v ≢ u → z < 512 → stored (v + z * 8) ≡ m (v + z * 8)
    kept v z pv ne hz = ground (arith, u_page, apart v u z y pv)

    kept_slot : (z : ℕ) → z ≢ y → stored (u + z * 8) ≡ m (u + z * 8)
    kept_slot z ne = ground arith

    new_slot : stored (u + y * 8) ≡ ptr t
    new_slot = ground arith

    u_ne_root : root ≢ u
    u_ne_root e = ground (arith, tree.root_role)

    t_ne_u : t ≢ u
    t_ne_u e = ground arith

    t_ne_root : t ≢ root
    t_ne_root e = ground (arith, tree.root_role)

    kept_root : (w : ℕ) → w < slots → stored (root + w * 8) ≡ m (root + w * 8)
    kept_root w hw = ground (arith, tree.small, u_page, root_page tree, apart root u w y, u_ne_root)

    mid_entry :
        (v w z : ℕ)
        → update role t (low x y) v ≡ mid w
        → z < 512
        → MidEntry (update role t (low x y)) w z (stored (v + z * 8))
    mid_entry v w z h hz =
        let was_mid : role v ≡ mid w = ground arith in
        let grown =
          MidEntry-grow t w z (m (v + z * 8)) (low x y) fresh (tree.mid_entry v w z was_mid hz) in
        elim (ℕ_discrete v u) [
          | no ne ↦
              subst (MidEntry (update role t (low x y)) w z)
                (sym (kept v z (mid_page tree v w was_mid).0 ne hz)) grown
          | yes same ↦ elim (ℕ_discrete z y) [
            | yes at ↦ inr (inr (t, ground arith, ground arith))
            | no ne ↦
                subst (MidEntry (update role t (low x y)) w z) (ground (arith, kept_slot z ne))
                  grown
          ]
        ]

    pub add_low-IsTree : IsTree stored root slots (update role t (low x y))
    add_low-IsTree = record {
      root_role = ground (arith, tree.root_role);
      small = tree.small;
      is_page = λ v h. ground (arith, tree.is_page v);
      root_entry = λ w h.
          subst (RootEntry (update role t (low x y)) w) (sym (kept_root w h))
            (RootEntry-grow t w (m (root + w * 8)) (low x y) fresh (tree.root_entry w h));
      mid_entry = mid_entry;
    }

    empty_below : (z : ℕ) → z < 512 → lookup2 stored root x y z ≡ none
    empty_below z hz = ground (
      arith,
      kept_root x hx,
      new_slot,
      next-ptr u u_page.0 u_page.1,
      next-ptr t page fits,
      kept t z page t_ne_u hz,
      zeroed z hz,
    )

    empty_before : (z : ℕ) → lookup2 m root x y z ≡ none
    empty_before z = ground (arith, next-ptr u u_page.0 u_page.1)

    -- No mapping appears, and none is lost.
    pub add_low-lookup :
        (w s z : ℕ)
        → w < slots
        → s < 512
        → z < 512
        → lookup2 stored root w s z ≡ lookup2 m root w s z
    add_low-lookup w s z hw hs hz = elim (ℕ_discrete w x) [
      | no ne ↦
          lookup2-agree tree stored w s z hs hw (kept_root w hw)
            (λ v h. kept v s (mid_page tree v w h).0 (λ e. ground arith) hs)
            (λ v h. kept v z (low_page tree v w s h).0 (λ e. ground arith) hz)
      | yes same ↦ elim (ℕ_discrete s y) [
        | yes at ↦ rw same (rw at (empty_below z hz ∙ sym (empty_before z)))
        | no ne ↦
            lookup2-agree tree stored w s z hs hw (kept_root w hw)
              (λ v h. ground (arith, kept v s (mid_page tree v w h).0, kept_slot s ne))
              (λ v h. kept v z (low_page tree v w s h).0 (λ e. ground arith) hz)
      ]
    ]
