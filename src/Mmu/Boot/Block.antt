-- ===== src/Mmu/Boot/Block.antt =====
-- One round of `mapblock`: a 2 MB leaf in the level-1 table of its root slot.
use front_mangopi_overlay.Mmu.Boot.{Boot, ntables, mapleaf2m, store}
use front_mangopi_overlay.Mmu.Boot.State.{IsBoot, HasMid, Unblocked}
use front_mangopi_overlay.Mmu.Boot.Level.{MidFound, mid_level, IsBoot-store}
use front_mangopi_overlay.Mmu.Boot.Leaf.{vpn2, vpn1}
use front_mangopi_overlay.Mmu.Tree.AddLeaf.{
  add_block-IsTree, add_block-lookup_self, add_block-lookup_ne,
}
use front_mangopi_overlay.Mmu.Tree.Agree.{update-apart, root_page, mid_page}
use front_mangopi_overlay.Mmu.Pte.{papte}
use front_mangopi_overlay.Mmu.Pte.Fields.{ptlx-one, ptlx-two}
use front_mangopi_overlay.Mmu.Tree.{lookup2, Role, mid}
use front_mangopi_overlay.Base.{
  bit_or, ◌∙◌, ap, ℕ, ◌+◌, ◌*◌, ◌/◌, ◌%◌, ◌<◌, ◌≤◌, ◌≡◌, ◌≢◌, ◌⊎◌, Option, some, arith, refl,
}

-- What one round for entry `e` does to the state.
pub record BlockLeaf (b : Boot) (role : ℕ → Role) (va e : ℕ) (result : Option Boot) : Type 0 where
  pub after : Boot
  pub role' : ℕ → Role
  pub ran : result ≡ some after
  pub is : IsBoot after role'
  pub maps : (z : ℕ) → lookup2 after.mem after.root (vpn2 va) (vpn1 va) z ≡ some e
  pub others :
      (w s r : ℕ)
      → w < 512
      → s < 512
      → r < 512
      → ¬ ((w ≡ vpn2 va) × (s ≡ vpn1 va))
      → lookup2 after.mem after.root w s r ≡ lookup2 b.mem b.root w s r
  pub has_mid : HasMid after role' (vpn2 va)
  pub keeps_mid : (w : ℕ) → w < 512 → HasMid b role w → HasMid after role' w
  pub keeps_unblocked :
      (w : ℕ) → w < 512 → w ≢ vpn2 va → Unblocked b role w → Unblocked after role' w
  pub count : after.ntable ≤ b.ntable + 1
  pub no_table : HasMid b role (vpn2 va) → after.ntable ≡ b.ntable

module _ {b : Boot} {role : ℕ → Role} (is : IsBoot b role) (va pa attr : ℕ)
    (valid : bit_or (papte pa) attr % 2 ≡ 1) (leaf : bit_or (papte pa) attr / 2 % 8 ≢ 0)
    (room : HasMid b role (vpn2 va) ⊎ (b.ntable < ntables)) where
  module _ (f : MidFound b role (vpn2 va)) where
    abbrev e : ℕ
    e = bit_or (papte pa) attr

    abbrev final : Boot
    final = store (f.u + vpn1 va * 8) e f.after

    ran : mapleaf2m va pa attr b ≡ some final
    unfolding mapleaf2m
    ran = rw (ptlx-two va, ptlx-one va) (rw f.ran refl)

    u_page : f.u % 4096 ≡ 0
    u_page = (f.is.tree.is_page f.u (λ h. cc (f.is_mid))).0

    same_root_slot :
        (w : ℕ) → w < 512 → final.mem (final.root + w * 8) ≡ f.after.mem (f.after.root + w * 8)
    same_root_slot w hw =
        update-apart f.after.mem f.after.root f.u w (vpn1 va) e (root_page f.is.tree).0 u_page
          (λ h. cc (f.is_mid, ap f.role' h, f.is.tree.root_role)) hw (omega arith)

    same_mid_slot :
        (t w s : ℕ)
        → f.role' t ≡ mid w
        → w ≢ vpn2 va
        → s < 512
        → final.mem (t + s * 8) ≡ f.after.mem (t + s * 8)
    same_mid_slot t w s is_mid ne hs =
        update-apart f.after.mem t f.u s (vpn1 va) e (mid_page f.is.tree t w is_mid).0 u_page
          (λ h. other_role h) hs (omega arith)
      where
        other_role : t ≡ f.u → ⊥
        other_role h = ground (arith, f.is_mid, is_mid, ap f.role' h)

    block_leaf : BlockLeaf b role va e (mapleaf2m va pa attr b)
    block_leaf = record {
      after = final;
      role' = f.role';
      ran = ran;
      is =
          IsBoot-store f.is f.u (vpn1 va) e (λ h. cc (f.is_mid)) (omega arith)
            (add_block-IsTree f.is.tree (vpn2 va) (vpn1 va) f.u e (omega arith) (omega arith)
              f.is_mid f.root_ptr valid leaf);
      maps =
          add_block-lookup_self f.is.tree (vpn2 va) (vpn1 va) f.u e (omega arith) (omega arith)
            f.is_mid f.root_ptr valid leaf;
      others = λ w s r hw hs hr ne.
          add_block-lookup_ne f.is.tree (vpn2 va) (vpn1 va) f.u e (omega arith) (omega arith)
            f.is_mid f.root_ptr valid leaf w s r hw hs hr ne
          ∙ f.extends.same_map w s r hw hs hr;
      has_mid = (f.u, f.is_mid, same_root_slot (vpn2 va) (omega arith) ∙ f.root_ptr);
      keeps_mid = λ w hw h.
          let (u, is_mid, is_ptr) = f.extends.keeps_mid w hw h in
          (u, is_mid, same_root_slot w hw ∙ is_ptr);
      keeps_unblocked = λ w hw ne h t s is_mid hs.
          rw (same_mid_slot t w s is_mid ne hs) (f.extends.keeps_unblocked w hw h t s is_mid hs);
      count = f.count;
      no_table = f.cheap;
    }

  -- With room for the level-1 table, the round returns, and maps its 2 MB and only them.
  pub mapleaf2m-BlockLeaf : BlockLeaf b role va (bit_or (papte pa) attr) (mapleaf2m va pa attr b)
  mapleaf2m-BlockLeaf = block_leaf (mid_level is (vpn2 va) (omega arith) room)
