-- ===== src/Mmu/User/Put.antt =====
-- `putmmu` for a process that has a root.
use front_mangopi_overlay.Mmu.User.{putmmu_pte}
use front_mangopi_overlay.Mmu.User.Attr.{putmmu_pte-Decodes}
use front_mangopi_overlay.Mmu.User.Tables.{Proc, Hart, Walk, put_pte, putmmu, nuserslot}
use front_mangopi_overlay.Mmu.User.State.{IsUser, missing, all_pages}
use front_mangopi_overlay.Mmu.User.Refill.{Refilled, refill-Refilled}
use front_mangopi_overlay.Mmu.Boot.Leaf.{vpn0, vpn1, vpn2}
use front_mangopi_overlay.Mmu.Tree.{lookup2, Role, mid}
use front_mangopi_overlay.Mmu.Tree.Agree.{update-apart, root_page, mid_page}
use front_mangopi_overlay.Mmu.Tree.AddLeaf.{
  add_leaf-IsTree, add_leaf-lookup_self, add_leaf-lookup_ne,
}
use mathlib.Core.List.{Perm}
use mathlib.Core.Path.{subst}
use front_mangopi_overlay.Base.{
  ◌∙◌, sym, ap, ℕ, ◌+◌, ◌*◌, ◌%◌, ◌^◌, ◌<◌, ◌≤◌, ◌≡◌, ◌≢◌, arith, update, List, length, refl, some,
  none, Option,
}

-- What a walk sees of a process.
abbrev pub walk_of : Proc → Hart → Walk
walk_of p h = record { mem = h.mem; free = p.mmufree; used = p.mmuused }

-- What a `putmmu` for `va` and the entry `e` does to the process and its pages.
pub record Put (p : Proc) (h : Hart) (root : ℕ) (pages : List ℕ) (va e : ℕ)
    (result : Option (Proc × Hart × List ℕ)) : Type 0 where
  pub proc : Proc
  pub hart : Hart
  pub left : List ℕ
  pub role' : ℕ → Role
  pub ran : result ≡ some (proc, hart, left)
  pub same_root : (proc.mmuroot ≡ p.mmuroot) × (proc.satp ≡ p.satp) × (hart.active ≡ h.active)
  pub is : IsUser (walk_of proc hart) root left role'
  pub maps : lookup2 hart.mem root (vpn2 va) (vpn1 va) (vpn0 va) ≡ some e
  pub others :
      (x y z : ℕ)
      → x < nuserslot
      → y < 512
      → z < 512
      → ¬ ((x ≡ vpn2 va) × (y ≡ vpn1 va) × (z ≡ vpn0 va))
      → lookup2 hart.mem root x y z ≡ lookup2 h.mem root x y z
  pub kernel_half :
      (x : ℕ) → nuserslot ≤ x → x < 512 → hart.mem (root + x * 8) ≡ h.mem (root + x * 8)
  pub same_pages : Perm (all_pages (walk_of proc hart) left) (all_pages (walk_of p h) pages)
  pub no_more :
      length p.mmufree + length pages
      ≡ missing h.mem root (vpn2 va) (vpn1 va) + (length proc.mmufree + length left)

-- A process that has a root keeps it.
put-root :
    (kernel : ℕ) (pages : List ℕ) (va pa root : ℕ) (p : Proc) (h : Hart)
    → p.mmuroot ≡ some root
    → putmmu kernel pages va pa p h ≡ put_pte pages va pa root p h
unfolding putmmu
put-root kernel pages va pa root p h has = rw has refl

module _ (pages : List ℕ) (va pa root : ℕ) (p : Proc) (h : Hart) (fits : pa < 2 ^ 56)
    (r : Refilled (walk_of p h) root pages va) where
  valid : putmmu_pte pa % 2 ≡ 1
  valid = omega (arith, (putmmu_pte-Decodes pa fits).valid_and_read)

  abbrev proc : Proc
  proc = record p { mmufree = r.after.free; mmuused = r.after.used }

  abbrev hart : Hart
  hart = record h { mem = update r.after.mem (r.v + vpn0 va * 8) (putmmu_pte pa) }

  ran : put_pte pages va pa root p h ≡ some (proc, hart, r.left)
  unfolding put_pte
  ran =
      ap
        (λ (o : Option (ℕ × Walk × List ℕ)). elim o [
          | none ↦ none
          | some (slot, w, left) ↦ some (
            record p { mmufree = w.free; mmuused = w.used },
            record h { mem = update w.mem slot (putmmu_pte pa) },
            left,
          )
        ])
        r.ran

  -- The indices are in range.
  slots : (vpn2 va < 512) × (vpn1 va < 512) × (vpn0 va < 512)
  slots = omega arith

  v_page : r.v % 4096 ≡ 0
  v_page = (r.found.is.tree.is_page r.v (λ e. cc (r.found.is_low))).0

  root_other : root ≢ r.v
  root_other e = ground (arith, r.found.is.tree.root_role, r.found.is_low)

  kept_mid :
      (t x y : ℕ)
      → r.found.role' t ≡ mid x
      → y < 512
      → hart.mem (t + y * 8) ≡ r.after.mem (t + y * 8)
  kept_mid t x y h hy =
      update-apart r.after.mem t r.v y (vpn0 va) (putmmu_pte pa) (mid_page r.found.is.tree t x h).0
        v_page (λ e. cc (h, r.found.is_low, ap r.found.role' e)) hy slots.2

  module _ (user : vpn2 va < nuserslot) where
    pub put_pte-Put : Put p h root pages va (putmmu_pte pa) (put_pte pages va pa root p h)
    put_pte-Put =
        let f = r.found in
        record {
          proc = proc;
          hart = hart;
          left = r.left;
          role' = f.role';
          ran = ran;
          same_root = (refl, refl, refl);
          is = record {
            tree =
                add_leaf-IsTree f.is.tree (vpn2 va) (vpn1 va) (vpn0 va) f.u r.v (putmmu_pte pa) user
                  slots.1 slots.2 f.is_mid f.root_ptr f.is_low f.mid_ptr valid;
            no_block = λ t x y h hy. rw (kept_mid t x y h hy) (f.is.no_block t x y h hy);
            spare = f.is.spare;
          };
          maps =
              add_leaf-lookup_self f.is.tree (vpn2 va) (vpn1 va) (vpn0 va) f.u r.v (putmmu_pte pa)
                user slots.1 slots.2 f.is_mid f.root_ptr f.is_low f.mid_ptr valid;
          others = λ x y z hx hy hz ne.
              add_leaf-lookup_ne f.is.tree (vpn2 va) (vpn1 va) (vpn0 va) f.u r.v (putmmu_pte pa)
                user slots.1 slots.2 f.is_mid f.root_ptr f.is_low f.mid_ptr valid x y z hx hy hz ne
              ∙ f.extends.same_map x y z hx hy hz;
          kernel_half = λ x lo hi.
              update-apart r.after.mem root r.v x (vpn0 va) (putmmu_pte pa) (root_page f.is.tree).0
                v_page root_other hi slots.2
              ∙ f.extends.kernel_half x lo hi;
          same_pages = f.extends.same_pages;
          no_more = f.need;
        }

-- For a process whose tables are well formed, an address in the user half and a physical address
-- below 2^56: if the process and `newpage` together have a page for each table that lacks, `putmmu`
-- returns, the page is mapped by the entry for the physical address, no other user mapping and no
-- entry of the kernel's half changes, as many pages are taken as tables lacked, the process and
-- `newpage` have together the pages they had, and the tables are again well formed.
pub putmmu-Put :
    (kernel : ℕ) (pages : List ℕ) (va pa root : ℕ) (p : Proc) (h : Hart) (role : ℕ → Role)
    → p.mmuroot ≡ some root
    → va < 2 ^ 38
    → pa < 2 ^ 56
    → IsUser (walk_of p h) root pages role
    → missing h.mem root (vpn2 va) (vpn1 va) ≤ length p.mmufree + length pages
    → Put p h root pages va (putmmu_pte pa) (putmmu kernel pages va pa p h)
putmmu-Put kernel pages va pa root p h role has low_half fits is room =
    let r = refill-Refilled pages (walk_of p h) root role va low_half is room in
    let same : putmmu kernel pages va pa p h ≡ put_pte pages va pa root p h =
      put-root kernel pages va pa root p h has in
    subst (Put p h root pages va (putmmu_pte pa)) (sym same)
      (put_pte-Put pages va pa root p h fits r (omega arith))
