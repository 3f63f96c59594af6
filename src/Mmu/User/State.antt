-- ===== src/Mmu/User/State.antt =====
-- The invariant of a process's page tables and its pages.
use front_mangopi_overlay.Mmu.User.Tables.{Walk, clear, nuserslot}
use front_mangopi_overlay.Mmu.Tree.{
  Mem, next, lookup2, Role, unused, mid, low, RootEntry, MidEntry, IsTree,
}
use front_mangopi_overlay.Mmu.Tree.Agree.{root_page, mid_page, low_page, lookup2-agree}
use mathlib.Core.Path.{subst}
use mathlib.Core.List.{Perm}
use mathlib.Core.List.Perm
use front_mangopi_overlay.Base.{
  ◌∙◌, sym, ℕ, ◌+◌, ◌*◌, ◌/◌, ◌%◌, ◌^◌, ◌<◌, ◌≤◌, ◌≡◌, ◌≢◌, ◌⊎◌, ◌==◌, if◌then◌else◌, arith, update,
  List, [], ◌∷◌, ◌++◌, refl,
}

abbrev pub NotIn : ℕ → List ℕ → Type 0
NotIn p [] = Unit {0}
NotIn p (q ∷ qs) = (p ≢ q) × NotIn p qs

-- Pages of memory that are no table of the tree, each once.
abbrev pub AllSpare : (ℕ → Role) → List ℕ → Type 0
AllSpare role [] = Unit {0}
AllSpare role (p ∷ ps) =
    (role p ≡ unused) × (p % 4096 ≡ 0) × (p < 2 ^ 56) × NotIn p ps × AllSpare role ps

-- No 2 MB leaf stands below the root.
abbrev pub NoBlock : Mem → (ℕ → Role) → Type 0
NoBlock m role =
    (t x y : ℕ) → role t ≡ mid x → y < 512 → (m (t + y * 8) % 2 ≡ 0) ⊎ (m (t + y * 8) / 2 % 8 ≡ 0)

-- The user half of the tables at `root` is a tree without blocks, and the pages of the free list
-- and those to come are spare.
pub record IsUser (w : Walk) (root : ℕ) (pages : List ℕ) (role : ℕ → Role) : Type 0 where
  pub tree : IsTree w.mem root nuserslot role
  pub no_block : NoBlock w.mem role
  pub spare : AllSpare role (w.free ++ pages)

-- The tables that lack for a page, by its indices.
abbrev pub missing : Mem → (root x y : ℕ) → ℕ
missing m root x y =
    if m (root + x * 8) % 2 == 0
    then 2
    else if m (next (m (root + x * 8)) + y * 8) % 2 == 0
    then 1
    else 0

-- The pages that a process and `newpage` have between them, but for the root.
abbrev pub all_pages : Walk → List ℕ → List ℕ
all_pages w pages = w.used ++ (w.free ++ pages)

-- What new tables leave as it was: each mapping, the kernel's half of the root, and the pages.
pub record Extends (w w' : Walk) (root : ℕ) (pages pages' : List ℕ) : Type 0 where
  pub same_map :
      (x y z : ℕ)
      → x < nuserslot
      → y < 512
      → z < 512
      → lookup2 w'.mem root x y z ≡ lookup2 w.mem root x y z
  pub kernel_half : (x : ℕ) → nuserslot ≤ x → x < 512 → w'.mem (root + x * 8) ≡ w.mem (root + x * 8)
  pub same_pages : Perm (all_pages w' pages') (all_pages w pages)

pub Extends-refl : (w : Walk) (root : ℕ) (pages : List ℕ) → Extends w w root pages pages
Extends-refl w root pages = record {
  same_map = λ x y z hx hy hz. refl;
  kernel_half = λ x lo hi. refl;
  same_pages = Perm.refl (all_pages w pages);
}

pub Extends-trans :
    {a b c : Walk} {root : ℕ} {p q r : List ℕ}
    → Extends a b root p q
    → Extends b c root q r
    → Extends a c root p r
Extends-trans f g = record {
  same_map = λ x y z hx hy hz. g.same_map x y z hx hy hz ∙ f.same_map x y z hx hy hz;
  kernel_half = λ x lo hi. g.kernel_half x lo hi ∙ f.kernel_half x lo hi;
  same_pages = Perm.trans (g.same_pages) (f.same_pages);
}

pub AllSpare-other :
    (role : ℕ → Role) (t : ℕ) (r : Role) (ps : List ℕ)
    → NotIn t ps
    → AllSpare role ps
    → AllSpare (update role t r) ps
AllSpare-other role t r [] others h = tt
AllSpare-other role t r (p ∷ ps) others (free, page, fits, once, rest) =
    (ground arith, page, fits, once, AllSpare-other role t r ps others.1 rest)

-- Clearing a page that is no table.
module _ {m : Mem} {root slots : ℕ} {role : ℕ → Role} (tree : IsTree m root slots role) (t : ℕ)
    (fresh : role t ≡ unused) (page : t % 4096 ≡ 0) where
  pub clear-other :
      (u y : ℕ) → u % 4096 ≡ 0 → u ≢ t → y < 512 → clear 512 t m (u + y * 8) ≡ m (u + y * 8)
  clear-other u y pu ne hy = ground arith

  pub clear-root : (x : ℕ) → x < 512 → clear 512 t m (root + x * 8) ≡ m (root + x * 8)
  clear-root x hx = clear-other root x (root_page tree).0 (λ e. ground (arith, tree.root_role)) hx

  pub clear-mid : (u w y : ℕ) → role u ≡ mid w → y < 512 → clear 512 t m (u + y * 8) ≡ m (u + y * 8)
  clear-mid u w y h hy = clear-other u y (mid_page tree u w h).0 (λ e. ground arith) hy

  clear-low : (u w s z : ℕ) → role u ≡ low w s → z < 512 → clear 512 t m (u + z * 8) ≡ m (u + z * 8)
  clear-low u w s z h hz = clear-other u z (low_page tree u w s h).0 (λ e. ground arith) hz

  pub clear-IsTree : IsTree (clear 512 t m) root slots role
  clear-IsTree = record {
    root_role = tree.root_role;
    small = tree.small;
    is_page = tree.is_page;
    root_entry = λ x hx.
        subst (RootEntry role x) (sym (clear-root x (omega (arith, tree.small))))
          (tree.root_entry x hx);
    mid_entry = λ u w y h hy.
        subst (MidEntry role w y) (sym (clear-mid u w y h hy)) (tree.mid_entry u w y h hy);
  }

  pub clear-lookup :
      (x y z : ℕ)
      → x < slots
      → y < 512
      → z < 512
      → lookup2 (clear 512 t m) root x y z ≡ lookup2 m root x y z
  clear-lookup x y z hx hy hz =
      lookup2-agree tree (clear 512 t m) x y z hy hx (clear-root x (omega (arith, tree.small)))
        (λ u h. clear-mid u x y h hy) (λ v h. clear-low v x y z h hz)

  pub cleared : (y : ℕ) → y < 512 → clear 512 t m (t + y * 8) ≡ 0
  cleared y hy = ground arith
