-- ===== src/Mmu/User/Empty.antt =====
-- A root whose user half is empty.
use front_mangopi_overlay.Mmu.User.Tables.{Walk, nuserslot}
use front_mangopi_overlay.Mmu.User.State.{IsUser, AllSpare, AllSpare-other, NotIn, missing}
use front_mangopi_overlay.Mmu.Tree.{lookup2, Role, unused, top, mid}
use front_mangopi_overlay.Base.{
  ℕ, ◌+◌, ◌*◌, ◌%◌, ◌^◌, ◌<◌, ◌≡◌, inl, arith, update, List, ◌++◌, none,
}

-- No page is a table, and none is but the root.
abbrev pub no_table : ℕ → Role
no_table t = unused

abbrev pub only_root : ℕ → ℕ → Role
only_root root = update no_table root top

module _ (w : Walk) (root : ℕ) (pages : List ℕ) (page : root % 4096 ≡ 0) (fits : root < 2 ^ 56)
    (empty : (x : ℕ) → x < nuserslot → w.mem (root + x * 8) ≡ 0)
    (others : NotIn root (w.free ++ pages)) (spare : AllSpare no_table (w.free ++ pages)) where
  no_mid : (t x : ℕ) → only_root root t ≡ mid x → ⊥
  no_mid t x h = ground arith

  pub empty-IsUser : IsUser w root pages (only_root root)
  empty-IsUser = record {
    tree = record {
      root_role = ground arith;
      small = omega arith;
      is_page = λ t h. ground arith;
      root_entry = λ x hx. inl (omega (arith, empty x hx));
      mid_entry = λ t x y h hy. absurd (no_mid t x h);
    };
    no_block = λ t x y h hy. absurd (no_mid t x h);
    spare = AllSpare-other no_table root top (w.free ++ pages) others spare;
  }

  pub empty-lookup : (x y z : ℕ) → x < nuserslot → lookup2 w.mem root x y z ≡ none
  empty-lookup x y z hx = ground (arith, empty x hx)

  pub empty-missing : (x y : ℕ) → x < nuserslot → missing w.mem root x y ≡ 2
  empty-missing x y hx = ground (arith, empty x hx)
