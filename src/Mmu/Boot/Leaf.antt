-- ===== src/Mmu/Boot/Leaf.antt =====
-- One call of `mapleaf`: the page is mapped as asked, and no other page's mapping changes.
use front_mangopi_overlay.Mmu.Boot.{Boot, ntables, mapleaf, store}
use front_mangopi_overlay.Mmu.Boot.State.{IsBoot, HasMid, HasLow, Unblocked}
use front_mangopi_overlay.Mmu.Boot.Level.{
  Extends, Extends-trans, MidFound, LowFound, mid_level, low_level, IsBoot-store,
}
use front_mangopi_overlay.Mmu.Tree.AddLeaf.{
  add_leaf-IsTree, add_leaf-lookup_self, add_leaf-lookup_ne,
}
use front_mangopi_overlay.Mmu.Tree.Agree.{update-apart}
use front_mangopi_overlay.Mmu.Pte.{papte}
use front_mangopi_overlay.Mmu.Pte.Fields.{ptlx-zero, ptlx-one, ptlx-two}
use front_mangopi_overlay.Mmu.Tree.{lookup2, Role, mid}
use front_mangopi_overlay.Mmu.Tree.Agree.{root_page, mid_page}
use front_mangopi_overlay.Base.{
  bit_or, ◌∙◌, ap, ℕ, ◌+◌, ◌*◌, ◌/◌, ◌%◌, ◌^◌, ◌<◌, ◌≤◌, ◌≡◌, ◌⊎◌, inl, inr, Option, some, arith,
  refl,
}

-- The indices of a virtual address.
abbrev pub vpn2 : ℕ → ℕ
vpn2 va = va / 2 ^ 30 % 512

abbrev pub vpn1 : ℕ → ℕ
vpn1 va = va / 2 ^ 21 % 512

abbrev pub vpn0 : ℕ → ℕ
vpn0 va = va / 2 ^ 12 % 512

-- What a call of `mapleaf` for entry `e` does to the state.
pub record LeafMapped (b : Boot) (role : ℕ → Role) (va e : ℕ) (result : Option Boot) : Type 0 where
  pub after : Boot
  pub role' : ℕ → Role
  pub ran : result ≡ some after
  pub is : IsBoot after role'
  pub maps : lookup2 after.mem after.root (vpn2 va) (vpn1 va) (vpn0 va) ≡ some e
  pub others :
      (w s r : ℕ)
      → w < 512
      → s < 512
      → r < 512
      → ¬ ((w ≡ vpn2 va) × (s ≡ vpn1 va) × (r ≡ vpn0 va))
      → lookup2 after.mem after.root w s r ≡ lookup2 b.mem b.root w s r
  pub has_low : HasLow after role' (vpn2 va) (vpn1 va)
  pub keeps_mid : (w : ℕ) → w < 512 → HasMid b role w → HasMid after role' w
  pub keeps_unblocked : (w : ℕ) → w < 512 → Unblocked b role w → Unblocked after role' w
  pub grows : b.ntable ≤ after.ntable
  pub count : after.ntable ≤ b.ntable + 2
  pub one_table : HasMid b role (vpn2 va) → after.ntable ≤ b.ntable + 1
  pub no_table : HasLow b role (vpn2 va) (vpn1 va) → after.ntable ≡ b.ntable

-- Enough tables are left for the call.
abbrev pub Room : Boot → (ℕ → Role) → ℕ → Type 0
Room b role va =
    HasLow b role (vpn2 va) (vpn1 va)
    ⊎ (HasMid b role (vpn2 va) × (b.ntable < ntables))
    ⊎ (b.ntable + 1 < ntables)

module _ {b : Boot} {role : ℕ → Role} (is : IsBoot b role) (va pa attr : ℕ)
    (valid : bit_or (papte pa) attr % 2 ≡ 1) (clear : Unblocked b role (vpn2 va))
    (room : Room b role va) where
  room_mid : HasMid b role (vpn2 va) ⊎ (b.ntable < ntables)
  room_mid = elim room [
    | inl (u, v, is_mid, root_ptr, is_low, mid_ptr) ↦ inl (u, is_mid, root_ptr)
    | inr (inl (has, left)) ↦ inl has
    | inr (inr left) ↦ inr (omega arith)
  ]

  first : MidFound b role (vpn2 va)
  first = mid_level is (vpn2 va) (omega arith) room_mid

  module _ (f : MidFound b role (vpn2 va)) where
    room_low : HasLow f.after f.role' (vpn2 va) (vpn1 va) ⊎ (f.after.ntable < ntables)
    room_low = elim room [
      | inl has ↦ inl (f.keeps_low (vpn1 va) has)
      | inr (inl (has, left)) ↦ inr (omega (arith, f.cheap has))
      | inr (inr left) ↦ inr (omega (arith, f.count))
    ]

    second : LowFound f.after f.role' (vpn2 va) (vpn1 va) f.u
    second =
        low_level f.is (vpn2 va) (vpn1 va) f.u (omega arith) (omega arith) f.is_mid f.root_ptr
          (f.extends.keeps_unblocked (vpn2 va) (omega arith) clear) room_low

    module _ (g : LowFound f.after f.role' (vpn2 va) (vpn1 va) f.u) where
      abbrev e : ℕ
      e = bit_or (papte pa) attr

      abbrev final : Boot
      final = store (g.v + vpn0 va * 8) e g.after

      ran : mapleaf va pa attr b ≡ some final
      unfolding mapleaf
      ran = rw (ptlx-two va, ptlx-one va, ptlx-zero va) (rw f.ran (rw g.ran refl))

      grown : Extends b role g.after g.role'
      grown = Extends-trans f.extends g.extends

      v_page : g.v % 4096 ≡ 0
      v_page = (g.is.tree.is_page g.v (λ h. cc (g.is_low))).0

      same_root_slot :
          (w : ℕ) → w < 512 → final.mem (final.root + w * 8) ≡ g.after.mem (g.after.root + w * 8)
      same_root_slot w hw =
          update-apart g.after.mem g.after.root g.v w (vpn0 va) e (root_page g.is.tree).0 v_page
            (λ h. cc (g.is_low, ap g.role' h, g.is.tree.root_role)) hw (omega arith)

      same_mid_slot :
          (u w s : ℕ)
          → g.role' u ≡ mid w
          → s < 512
          → final.mem (u + s * 8) ≡ g.after.mem (u + s * 8)
      same_mid_slot u w s is_mid hs =
          update-apart g.after.mem u g.v s (vpn0 va) e (mid_page g.is.tree u w is_mid).0 v_page
            (λ h. cc (g.is_low, ap g.role' h, is_mid)) hs (omega arith)

      leaf_mapped : LeafMapped b role va e (mapleaf va pa attr b)
      leaf_mapped = record {
        after = final;
        role' = g.role';
        ran = ran;
        is =
            IsBoot-store g.is g.v (vpn0 va) e (λ h. cc (g.is_low)) (omega arith)
              (add_leaf-IsTree g.is.tree (vpn2 va) (vpn1 va) (vpn0 va) f.u g.v e (omega arith)
                (omega arith) (omega arith) g.is_mid g.root_ptr g.is_low g.mid_ptr valid);
        maps =
            add_leaf-lookup_self g.is.tree (vpn2 va) (vpn1 va) (vpn0 va) f.u g.v e (omega arith)
              (omega arith) (omega arith) g.is_mid g.root_ptr g.is_low g.mid_ptr valid;
        others = λ w s r hw hs hr ne.
            add_leaf-lookup_ne g.is.tree (vpn2 va) (vpn1 va) (vpn0 va) f.u g.v e (omega arith)
              (omega arith) (omega arith) g.is_mid g.root_ptr g.is_low g.mid_ptr valid w s r hw hs
              hr ne
            ∙ grown.same_map w s r hw hs hr;
        has_low = (
          f.u,
          g.v,
          g.is_mid,
          same_root_slot (vpn2 va) (omega arith) ∙ g.root_ptr,
          g.is_low,
          same_mid_slot f.u (vpn2 va) (vpn1 va) g.is_mid (omega arith) ∙ g.mid_ptr,
        );
        keeps_mid = λ w hw h.
            let (u, is_mid, is_ptr) = grown.keeps_mid w hw h in
            (u, is_mid, same_root_slot w hw ∙ is_ptr);
        keeps_unblocked = λ w hw h t s is_mid hs.
            rw (same_mid_slot t w s is_mid hs) (grown.keeps_unblocked w hw h t s is_mid hs);
        grows = omega (arith, f.grows, g.grows);
        count = omega (arith, f.count, g.count);
        one_table = λ h. omega (arith, f.cheap h, g.count);
        no_table = λ h. g.cheap (f.keeps_low (vpn1 va) h) ∙ f.cheap (h.0, h.2, h.3);
      }

  -- With room for the tables it may need, `mapleaf` returns, and maps the page and only it.
  pub mapleaf-LeafMapped : LeafMapped b role va (bit_or (papte pa) attr) (mapleaf va pa attr b)
  mapleaf-LeafMapped = leaf_mapped first (second first)
