-- ===== src/Mmu/User/First.antt =====
-- The first `putmmu` of a process, which makes its root.
use front_mangopi_overlay.Mmu.User.{putmmu_pte}
use front_mangopi_overlay.Mmu.User.Tables.{Proc, Hart, mmurootalloc, put_pte, putmmu, nuserslot}
use front_mangopi_overlay.Mmu.User.State.{IsUser, AllSpare, all_pages}
use front_mangopi_overlay.Mmu.User.Empty.{
  no_table, only_root, empty-IsUser, empty-lookup, empty-missing,
}
use front_mangopi_overlay.Mmu.User.Refill.{refill-Refilled}
use front_mangopi_overlay.Mmu.User.Put.{walk_of, put_pte-Put}
use front_mangopi_overlay.Mmu.Boot.Leaf.{vpn0, vpn1, vpn2}
use front_mangopi_overlay.Mmu.Pte.{mksatp}
use front_mangopi_overlay.Mmu.Tree.{lookup2, Role}
use mathlib.Core.List.{Perm}
use front_mangopi_overlay.Base.{
  ◌∙◌, ap, ℕ, ◌+◌, ◌*◌, ◌%◌, ◌^◌, ◌<◌, ◌≤◌, ◌≡◌, ◌≢◌, arith, ◌-◌, ◌⊎◌, List, ◌∷◌, ◌++◌, length,
  refl, some, none, Option,
}

-- What the first `putmmu` leaves, with the new root at `root`.
pub record FirstPut (kernel : ℕ) (p : Proc) (h : Hart) (root : ℕ) (more : List ℕ) (va e : ℕ)
    (result : Option (Proc × Hart × List ℕ)) : Type 0 where
  pub proc : Proc
  pub hart : Hart
  pub left : List ℕ
  pub role' : ℕ → Role
  pub ran : result ≡ some (proc, hart, left)
  pub root_set : proc.mmuroot ≡ some root
  pub satp_set : (proc.satp ≡ mksatp root) × (hart.active ≡ mksatp root)
  pub is : IsUser (walk_of proc hart) root left role'
  pub maps : lookup2 hart.mem root (vpn2 va) (vpn1 va) (vpn0 va) ≡ some e
  pub no_other :
      (x y z : ℕ)
      → x < nuserslot
      → y < 512
      → z < 512
      → ¬ ((x ≡ vpn2 va) × (y ≡ vpn1 va) × (z ≡ vpn0 va))
      → lookup2 hart.mem root x y z ≡ none
  pub kernel_half :
      (x : ℕ) → nuserslot ≤ x → x < 512 → hart.mem (root + x * 8) ≡ h.mem (kernel + x * 8)
  pub same_pages : Perm (all_pages (walk_of proc hart) left) (all_pages (walk_of p h) more)
  pub two_taken : length p.mmufree + length more ≡ 2 + (length proc.mmufree + length left)

-- The process and the hart with the new root selected.
with_root : (kernel pg : ℕ) → Proc → Hart → Proc × Hart
unfolding mmurootalloc
with_root kernel pg p h =
    let (p', h') = mmurootalloc kernel pg p h in (p', record h' { active = p'.satp })

put-rootless :
    (kernel pg : ℕ) (more : List ℕ) (va pa : ℕ) (p : Proc) (h : Hart)
    → p.mmuroot ≡ none
    → let (p', h') = with_root kernel pg p h in
      putmmu kernel (pg ∷ more) va pa p h ≡ put_pte more va pa pg p' h'
unfolding putmmu with_root
put-rootless kernel pg more va pa p h e = rw e refl

module _ (kernel pg : ℕ) (p : Proc) (h : Hart) (page : pg % 4096 ≡ 0)
    (kernel_page : kernel % 4096 ≡ 0) (apart : kernel ≢ pg) where
  user_empty : (x : ℕ) → x < nuserslot → (with_root kernel pg p h).1.mem (pg + x * 8) ≡ 0
  unfolding with_root
  user_empty x hx = ground arith

  kernel_copied :
      (x : ℕ)
      → nuserslot ≤ x
      → x < 512
      → (with_root kernel pg p h).1.mem (pg + x * 8) ≡ h.mem (kernel + x * 8)
  unfolding with_root
  kernel_copied x lo hi =
      let same : kernel + 2048 + (pg + x * 8 - (pg + 2048)) ≡ kernel + x * 8 = omega arith in
      let outside : (kernel + x * 8 < pg) ⊎ (pg + 2048 ≤ kernel + x * 8) = omega arith in
      ground (arith, same, outside)

-- The first `putmmu` of a process whose free table pages and the pages that `newpage` gives are
-- all different and none of them the boot root: with two pages besides the root it returns; the
-- root is the first of the new pages and its tables are selected, the page is mapped by the entry
-- for the physical address and no other user page is, the kernel's half is that of the boot root,
-- exactly two pages become tables, no page is lost, and the tables are well formed.
pub putmmu-FirstPut :
    (kernel pg : ℕ) (more : List ℕ) (va pa : ℕ) (p : Proc) (h : Hart)
    → p.mmuroot ≡ none
    → va < 2 ^ 38
    → pa < 2 ^ 56
    → kernel % 4096 ≡ 0
    → kernel ≢ pg
    → AllSpare no_table (pg ∷ p.mmufree ++ more)
    → 2 ≤ length p.mmufree + length more
    → FirstPut kernel p h pg more va (putmmu_pte pa) (putmmu kernel (pg ∷ more) va pa p h)
unfolding with_root
putmmu-FirstPut kernel pg more va pa p h none_yet low_half fits kernel_page apart
      (unused_pg, page, fits_pg, once, spare) room =
    let (p1, h1) = with_root kernel pg p h in
    let w = walk_of p1 h1 in
    let empty = user_empty kernel pg p h page kernel_page apart in
    let is = empty-IsUser w pg more page fits_pg empty once spare in
    let lacks =
      empty-missing w pg more page fits_pg empty once spare (vpn2 va) (vpn1 va) (omega arith) in
    let r = refill-Refilled more w pg (only_root pg) va low_half is (omega (arith, lacks)) in
    let done = put_pte-Put more va pa pg p1 h1 fits r (omega arith) in
    record {
      proc = done.proc;
      hart = done.hart;
      left = done.left;
      role' = done.role';
      ran = put-rootless kernel pg more va pa p h none_yet ∙ done.ran;
      root_set = done.same_root.0;
      satp_set = (done.same_root.1, done.same_root.2);
      is = done.is;
      maps = done.maps;
      no_other = λ x y z hx hy hz ne.
          done.others x y z hx hy hz ne
          ∙ empty-lookup w pg more page fits_pg empty once spare x y z hx;
      kernel_half = λ x lo hi.
          done.kernel_half x lo hi ∙ kernel_copied kernel pg p h page kernel_page apart x lo hi;
      same_pages = done.same_pages;
      two_taken = done.no_more ∙ ap (λ n. n + (length done.proc.mmufree + length done.left)) lacks;
    }
