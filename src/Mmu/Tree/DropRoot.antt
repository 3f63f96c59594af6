-- ===== src/Mmu/Tree/DropRoot.antt =====
-- An entry of the root that is emptied: the tables below it are out of reach.
use front_mangopi_overlay.Mmu.Tree.{Mem, lookup2, Role, IsTree}
use front_mangopi_overlay.Mmu.Tree.Agree.{
  update-apart, root_page, mid_page, low_page, lookup2-agree,
}
use native.Mathlib.Decide.{ℕ_discrete}
use front_mangopi_overlay.Base.{
  ◌∙◌, ℕ, ◌+◌, ◌*◌, ◌%◌, ◌<◌, ◌≡◌, ◌≢◌, inl, none, arith, refl, ◌==◌, false, if◌then◌else◌, update,
}

pub different : (w x : ℕ) → w ≢ x → w == x ≡ false
different w x ne = ground arith

module _ {m : Mem} {root : ℕ} {role : ℕ → Role} (tree : IsTree m root 512 role) (x : ℕ)
    (hx : x < 512) where
  abbrev dropped : Mem
  dropped = update m (root + x * 8) 0

  kept_slot : (w : ℕ) → w ≢ x → dropped (root + w * 8) ≡ m (root + w * 8)
  kept_slot w ne = ground arith

  kept_table : (t s : ℕ) → t % 4096 ≡ 0 → t ≢ root → s < 512 → dropped (t + s * 8) ≡ m (t + s * 8)
  kept_table t s page ne hs = update-apart m t root s x 0 page (root_page tree).0 ne hs hx

  pub drop-IsTree : IsTree dropped root 512 role
  drop-IsTree = record {
    root_role = tree.root_role;
    small = tree.small;
    is_page = tree.is_page;
    root_entry = λ w h. elim (ℕ_discrete w x) [
      | yes same ↦ inl (ground arith)
      | no ne ↦ rw (kept_slot w ne) (tree.root_entry w h)
    ];
    mid_entry = λ t w s h hs.
        rw (kept_table t s (mid_page tree t w h).0 (λ e. ground (arith, tree.root_role)) hs)
          (tree.mid_entry t w s h hs);
  }

  pub drop-lookup :
      (w s r : ℕ)
      → w < 512
      → s < 512
      → r < 512
      → lookup2 dropped root w s r ≡ (if w == x then none else lookup2 m root w s r)
  drop-lookup w s r hw hs hr = elim (ℕ_discrete w x) [
    | yes same ↦ ground arith
    | no ne ↦
        lookup2-agree tree dropped w s r hs hw (kept_slot w ne)
          (λ t h. kept_table t s (mid_page tree t w h).0 (λ e. ground (arith, tree.root_role)) hs)
          (λ t h. kept_table t r (low_page tree t w s h).0 (λ e. ground (arith, tree.root_role)) hr)
        ∙ rw (different w x ne) refl
  ]
